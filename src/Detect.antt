-- ===== src/Detect.antt =====
-- src/protocol/detect.rs, and the buffer that src/server.rs hands to it.
pub mod Methods
pub mod Peek
use peregrine_proxy.Base.{
  ℕ, Bool, true, false, ◌&&◌, ◌||◌, List, [], ◌∷◌, any, length, take, ltb, leb, ◌==◌, list_eq,
  starts_with, if◌then◌else◌,
}
use peregrine_proxy.Base.Text.{Bytes, codes}

pub data DetectedProtocol : Type 0 where
  http socks5 unknown : DetectedProtocol

-- `METHODS`.
abbrev pub methods : List Bytes
methods =
    codes "GET "
    ∷ codes "POST "
    ∷ codes "PUT "
    ∷ codes "DELETE "
    ∷ codes "HEAD "
    ∷ codes "OPTIONS "
    ∷ codes "PATCH "
    ∷ codes "CONNECT "
    ∷ codes "TRACE "
    ∷ []

-- The two tests in the loop: the buffer begins with the method, or is a beginning of it.
unfoldable pub fits_method : Bytes → Bytes → Bool
fits_method buf method =
    (leb (length method) (length buf) && list_eq (take (length method) buf) method)
    || (ltb (length buf) (length method) && starts_with buf method)

unfoldable pub is_http_method_prefix : Bytes → Bool
is_http_method_prefix buf = any (fits_method buf) methods

detect_nonempty : ℕ → Bytes → DetectedProtocol
detect_nonempty first buf =
    if first == 0x05 then socks5 else if is_http_method_prefix buf then http else unknown

unfoldable pub detect_protocol : Bytes → DetectedProtocol
unfolding detect_nonempty
detect_protocol [] = unknown
detect_protocol (first ∷ rest) = detect_nonempty first (first ∷ rest)
