-- ===== src/Upstream/Chain/Addresses.antt =====
-- `parse_addr_to_target` of src/upstream/chain.rs on the addresses that the program writes.
use mathlib.Core.List.{append_assoc}
use peregrine_proxy.Base.{
  ℕ, ◌+◌, ◌<◌, ◌≡◌, refl, sym, false, [], ◌∷◌, ◌++◌, length, length-append, drop, take-append,
  drop-append, contains, All, arith,
}
use peregrine_proxy.Base.Text.{Bytes}
use peregrine_proxy.Base.Decimal.{decimal, parse_u16-decimal, decimal-All, IsDigit}
use peregrine_proxy.Base.Search.{rfind-last}
use peregrine_proxy.Error.{ok}
use peregrine_proxy.Upstream.{address, address_text}
use peregrine_proxy.Upstream.Chain.{parse_addr_to_target}

no_colon : (bs : Bytes) → All IsDigit bs → contains bs b':' ≡ false
no_colon [] h = refl
no_colon (b ∷ bs) h = ground (arith, no_colon bs h.1)

-- The text of an address with a port below 65536 is split back into its host and its port, colons
-- in the host included.
pub parse_addr-address_text :
    (host : Bytes) (port : ℕ)
    → port < 65536
    → parse_addr_to_target (address_text host port) ≡ ok (address host port)
unfolding parse_addr_to_target address_text
parse_addr-address_text host port h =
    rw
      (
        rfind-last b':' host (decimal port) (no_colon (decimal port) (decimal-All port)),
        take-append (length host) host (b':' ∷ decimal port) refl,
        behind,
      )
      (rw (parse_u16-decimal port h))
  where
    behind : drop (length host + 1) (host ++ b':' ∷ decimal port) ≡ decimal port
    behind = rw (sym (append_assoc host (b':' ∷ []) (decimal port))) (
        drop-append (length host + 1) (host ++ b':' ∷ []) (decimal port)
          (omega (arith, length-append host (b':' ∷ []))))
