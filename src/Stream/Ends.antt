-- ===== src/Stream/Ends.antt =====
-- Calls that return on every connection, silent ones included.
use peregrine_proxy.Base.{Bool, Option, none, some, ◌≢◌, refl, arith}
use peregrine_proxy.Base.Text.{Bytes}
use peregrine_proxy.Error.{ProxyError}
use peregrine_proxy.Stream.{
  Conn, Outcome, done, fail, hung, M, pure, raise, ok_or, fail_if, bind_outcome, ◌>>=◌, write_all,
  timeout, expire, Event, record_event,
}

pub record Ends {A : Type 0} (m : M A) : Type 0 where
  pub returns : (s : Conn) → (m s).0 ≢ hung

module _ {A : Type 0} where
  pub pure-Ends : (a : A) → Ends (pure a)
  pure-Ends a = record { returns = λ s e. cc }

  pub raise-Ends : (e : ProxyError) → Ends (raise {A = A} e)
  raise-Ends x = record { returns = λ s e. cc }

  pub ok_or-Ends : (o : Option A) (e : ProxyError) → Ends (ok_or o e)
  ok_or-Ends none x = record { returns = λ s e. cc }
  ok_or-Ends (some a) x = record { returns = λ s e. cc }

  -- The limit makes any call return.
  pub timeout-Ends : (m : M A) → Ends (timeout m)
  timeout-Ends m = record { returns = λ s. go (m s).0 (m s).1 }
    where
      go : (o : Outcome A) (t : Conn) → (expire (o, t)).0 ≢ hung
      go (done a) t e = cc
      go (fail x) t e = cc
      go hung t e = cc

pub fail_if-Ends : (test : Bool) (e : ProxyError) → Ends (fail_if test e)
fail_if-Ends test x = record { returns = λ s. ground arith }

pub record_event-Ends : (e : Event) → Ends (record_event e)
record_event-Ends x = record { returns = λ s e. cc }

pub write_all-Ends : (bs : Bytes) → Ends (write_all bs)
unfolding write_all
write_all-Ends bs = record { returns = λ s. ground arith }

pub bind-Ends :
    {A B : Type 0} {m : M A} {f : A → M B} → Ends m → ((a : A) → Ends (f a)) → Ends (m >>= f)
bind-Ends {A} {B} {m = m} {f = f} hm hf = record {
  returns = λ s. go (m s).0 (m s).1 (hm.returns s);
}
  where
    go : (o : Outcome A) (t : Conn) → o ≢ hung → (bind_outcome o t f).0 ≢ hung
    go (done a) t h e = (hf a).returns t e
    go (fail x) t h e = cc
    go hung t h e = h refl

pub ruleset ends_rules = (
  pure-Ends, raise-Ends, ok_or-Ends, fail_if-Ends, timeout-Ends, record_event-Ends, write_all-Ends,
  bind-Ends,
)
