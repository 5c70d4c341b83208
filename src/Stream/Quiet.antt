-- ===== src/Stream/Quiet.antt =====
-- Calls that stay on their connection: they open none, and start no copy and no relay.
use peregrine_proxy.Base.{ℕ, Bool, Option, none, some, ◌≡◌, ◌≢◌, refl, ◌∙◌, arith}
use peregrine_proxy.Base.Text.{Bytes}
use peregrine_proxy.Error.{ProxyError}
use peregrine_proxy.Stream.{
  Conn, Outcome, done, fail, hung, M, pure, raise, ok_or, fail_if, bind_outcome, ◌>>=◌, read_exact,
  write_all, timeout,
}

pub record IsQuiet {A : Type 0} (m : M A) : Type 0 where
  pub keeps : (s : Conn) → (m s).1.events ≡ s.events

module _ {A : Type 0} where
  pub pure-IsQuiet : (a : A) → IsQuiet (pure a)
  pure-IsQuiet a = record { keeps = λ s. refl }

  pub raise-IsQuiet : (e : ProxyError) → IsQuiet (raise {A = A} e)
  raise-IsQuiet e = record { keeps = λ s. refl }

  pub ok_or-IsQuiet : (o : Option A) (e : ProxyError) → IsQuiet (ok_or o e)
  ok_or-IsQuiet none e = record { keeps = λ s. refl }
  ok_or-IsQuiet (some a) e = record { keeps = λ s. refl }

pub fail_if-IsQuiet : (test : Bool) (e : ProxyError) → IsQuiet (fail_if test e)
fail_if-IsQuiet test e = record { keeps = λ s. refl }

pub read_timed-IsQuiet : (n : ℕ) → IsQuiet (timeout (read_exact n))
unfolding read_exact
read_timed-IsQuiet n = record { keeps = λ s. ground arith }

pub write_all-IsQuiet : (bs : Bytes) → IsQuiet (write_all bs)
unfolding write_all
write_all-IsQuiet bs = record { keeps = λ s. ground arith }

pub bind-IsQuiet :
    {A B : Type 0} {m : M A} {f : A → M B}
    → IsQuiet m
    → ((a : A) → IsQuiet (f a))
    → IsQuiet (m >>= f)
bind-IsQuiet {A} {B} {m = m} {f = f} hm hf = record { keeps = λ s. go (m s).0 (m s).1 ∙ hm.keeps s }
  where
    go : (o : Outcome A) (t : Conn) → (bind_outcome o t f).1.events ≡ t.events
    go (done a) t = (hf a).keeps t
    go (fail e) t = refl
    go hung t = refl

pub ruleset quiet_rules = (
  pure-IsQuiet, raise-IsQuiet, ok_or-IsQuiet, fail_if-IsQuiet, read_timed-IsQuiet,
  write_all-IsQuiet, bind-IsQuiet,
)

-- Events that follow a quiet call come from what runs after it, which is then reached.
pub bind-events :
    {A B : Type 0} (m : M A) (f : A → M B) (s : Conn)
    → IsQuiet m
    → ((m >>= f) s).1.events ≢ s.events
    → (a : A) × (t : Conn) × (m s ≡ (done a, t)) × ((f a t).1.events ≢ t.events)
bind-events {A} {B} m f s quiet h = go (m s).0 (m s).1 refl (quiet.keeps s) h
  where
    go :
        (o : Outcome A) (t : Conn)
        → m s ≡ (o, t)
        → t.events ≡ s.events
        → (bind_outcome o t f).1.events ≢ s.events
        → (a : A) × (t : Conn) × (m s ≡ (done a, t)) × ((f a t).1.events ≢ t.events)
    go (done a) t e k n = (a, t, e, λ same. n (same ∙ k))
    go (fail x) t e k n = absurd (n k)
    go hung t e k n = absurd (n k)
