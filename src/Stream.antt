-- ===== src/Stream.antt =====
-- The connection that an asynchronous function of the proxy reads and writes, as a state: tokio's
-- `read_exact`, `read`, `write_all` and `timeout` over what the peer does. The peer is arbitrary:
-- it sends some bytes and then closes, resets or falls silent, it delivers them in segments of
-- its choice, and it may refuse bytes from any point on; a write never waits for it.
pub mod Laws
pub mod Quiet
pub mod Ends
pub mod Framed
use peregrine_proxy.Base.{
  ℕ, ◌-◌, Bool, true, false, Option, none, some, List, [], ◌∷◌, ◌++◌, leb, if◌then◌else◌, length,
  take, drop, min, max,
}
use peregrine_proxy.Base.Text.{Bytes}
use peregrine_proxy.Error.{
  IoError, unexpected_eof, connection_reset, broken_pipe, ProxyError, io, timeout as timeout_error,
}

-- What the peer does once its bytes are used up.
pub data Ending : Type 0 where
  closed reset silent : Ending

-- Calls into the network besides the connection itself, in the order they are made: a connection
-- to an address is opened, that connection and the client's are copied into each other
-- (`copy_bidirectional`), or the UDP relay loop is entered.
pub data Event : Type 0 where
  dial tunnel : Bytes → Event
  relay : Event

-- `segments` holds how many bytes further calls of `read` find; when it is used up they find all.
-- `room` is how many more bytes the peer takes before it resets; `none` is no limit.
pub record Conn : Type 0 where
  pub input : Bytes
  pub ending : Ending
  pub segments : List ℕ
  pub output : Bytes
  pub room : Option ℕ
  pub events : List Event

-- `hung` is a call that never returns.
pub data Outcome (A : Type 0) : Type 0 where
  done : A → Outcome A
  fail : ProxyError → Outcome A
  hung : Outcome A

abbrev pub M : Type 0 → Type 0
M A = Conn → Outcome A × Conn

module _ {A : Type 0} where
  abbrev pub pure : A → M A
  pure a s = (done a, s)

  abbrev pub raise : ProxyError → M A
  raise e s = (fail e, s)

  abbrev pub ok_or : Option A → ProxyError → M A
  ok_or none e s = (fail e, s)
  ok_or (some a) e s = (done a, s)

abbrev pub bind_outcome : {A B : Type 0} → Outcome A → Conn → (A → M B) → Outcome B × Conn
bind_outcome (done a) s f = f a s
bind_outcome (fail e) s f = (fail e, s)
bind_outcome hung s f = (hung, s)

-- `?` and `.await?`.
infixl 5 ◌>>=◌ ◌>>◌
abbrev pub ◌>>=◌ : {A B : Type 0} → M A → (A → M B) → M B
◌>>=◌ m f s = let (o, s') = m s in bind_outcome o s' f

abbrev pub ◌>>◌ : {A B : Type 0} → M A → M B → M B
m >> k = m >>= λ _. k

-- `if test { return Err(e) }`.
abbrev pub fail_if : Bool → ProxyError → M (Unit {0})
fail_if test e s = (if test then fail e else done tt, s)

-- What a read finds when no byte is left.
abbrev pub at_end : {A : Type 0} → Outcome A → Ending → Outcome A
at_end eof closed = eof
at_end eof reset = fail (io connection_reset)
at_end eof silent = hung

-- `read_exact` of a buffer of n bytes.
unfoldable pub read_exact : ℕ → M Bytes
read_exact n s =
    if leb n (length s.input)
    then (done (take n s.input), record s { input = drop n s.input })
    else (at_end (fail (io unexpected_eof)) s.ending, record s { input = [] })

-- How many bytes a `read` of a buffer of n bytes finds, at least one.
segment : ℕ → List ℕ → ℕ
segment n [] = n
segment n (k ∷ ks) = max 1 (min n k)

rest_segments : List ℕ → List ℕ
rest_segments [] = []
rest_segments (k ∷ ks) = ks

read_some : ℕ → Bytes → M Bytes
unfolding segment rest_segments
read_some n [] s = (at_end (done []) s.ending, s)
read_some n (b ∷ bs) s = (
  done (take (segment n s.segments) (b ∷ bs)),
  record s { input = drop (segment n s.segments) (b ∷ bs); segments = rest_segments s.segments },
)

-- `read` into a buffer of n bytes; no byte at all means that the peer has closed.
unfoldable pub read : ℕ → M Bytes
unfolding read_some
read n s = read_some n s.input s

write_room : Option ℕ → Bytes → M (Unit {0})
write_room none bs s = (done tt, record s { output = s.output ++ bs })
write_room (some r) bs s =
    if leb (length bs) r
    then (done tt, record s { output = s.output ++ bs; room = some (r - length bs) })
    else (fail (io broken_pipe), record s { output = s.output ++ take r bs; room = some 0 })

unfoldable pub write_all : Bytes → M (Unit {0})
unfolding write_room
write_all bs s = write_room s.room bs s

-- `timeout(limit, m)`: a call that would never return fails when the limit is over.
abbrev pub expire : {A : Type 0} → Outcome A × Conn → Outcome A × Conn
expire (done a, s) = (done a, s)
expire (fail e, s) = (fail e, s)
expire (hung, s) = (fail timeout_error, s)

abbrev pub timeout : {A : Type 0} → M A → M A
timeout m s = expire (m s)

-- A call into the network.
abbrev pub record_event : Event → M (Unit {0})
record_event e s = (done tt, record s { events = s.events ++ e ∷ [] })
