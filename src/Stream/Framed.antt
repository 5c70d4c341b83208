-- ===== src/Stream/Framed.antt =====
-- Calls that take a message from their connection and nothing of what follows it: neither the bytes
-- behind the message, nor the segments they come in, nor the end of the stream matter to them.
use mathlib.Core.Path.{fun_ext, subst}
use mathlib.Core.List.{append_assoc}
use peregrine_proxy.Base.{
  ℕ, ◌-◌, take, Bool-cases, inl, inr, ◌≡◌, refl, sym, ap, ◌∙◌, Bool, true, false, Option, none,
  some, List, [], ◌∷◌, ◌++◌, length, leb, if◌then◌else◌,
}
use peregrine_proxy.Base.Text.{Bytes}
use peregrine_proxy.Error.{ProxyError, io, broken_pipe}
use peregrine_proxy.Stream.{
  Conn, Ending, Outcome, done, fail, hung, M, pure, raise, ok_or, fail_if, bind_outcome, ◌>>=◌,
  read_exact, write_all, write_room, timeout, expire, Event, record_event,
}
use peregrine_proxy.Stream.Laws.{read_exact-append, bind-eq-done, read_exact-eq-done}

-- The same connection with another continuation.
abbrev pub before : Conn → Bytes → List ℕ → Ending → Conn
before s rest segments ending = record s { input = rest; segments = segments; ending = ending }

-- The result did not depend on what follows the bytes that were used.
abbrev pub Frames : {A : Type 0} → M A → Conn → A → Conn → Type 0
Frames m s a s' =
    (used : Bytes) × (s.input ≡ used ++ s'.input)
    × ((rest : Bytes) (segments : List ℕ) (ending : Ending)
        → m (before s (used ++ rest) segments ending) ≡ (done a, before s' rest segments ending))

pub record IsFramed {A : Type 0} (m : M A) : Type 0 where
  pub frames : (s : Conn) (a : A) (s' : Conn) → m s ≡ (done a, s') → Frames m s a s'

done_parts :
    {A : Type 0} (a b : A) (t s' : Conn)
    → ◌≡◌ {A = Outcome A × Conn} (done a, t) (done b, s')
    → (a ≡ b) × (t ≡ s')
done_parts a b t s' e = (cc, cc)

-- A call that used these bytes of any connection that begins with them.
pub used-Frames :
    {A : Type 0} (m : M A) (s : Conn) (a b : A) (t s' : Conn) (used : Bytes)
    → ◌≡◌ {A = Outcome A × Conn} (done a, t) (done b, s')
    → s.input ≡ used ++ t.input
    → ((rest : Bytes) (segments : List ℕ) (ending : Ending)
        → m (before s (used ++ rest) segments ending) ≡ (done a, before t rest segments ending))
    → Frames m s b s'
used-Frames m s a b t s' used e i h =
    let (p, q) = done_parts a b t s' e in
    (
      used,
      i ∙ ap (λ x. used ++ x.input) q,
      λ rest segments ending.
          h rest segments ending
          ∙ ap (λ x. (done x, before t rest segments ending)) p
          ∙ ap (λ x. (done b, before x rest segments ending)) q,
    )

module _ {A : Type 0} where
  pub raise-IsFramed : (e : ProxyError) → IsFramed (raise {A = A} e)
  raise-IsFramed x = record { frames = λ s a s' e. absurd (cc) }

  pub pure-IsFramed : (a : A) → IsFramed (pure a)
  pure-IsFramed a = record {
    frames = λ s b s' e. used-Frames (pure a) s a b s s' [] e refl (λ rest segments ending. refl);
  }

  pub ok_or-IsFramed : (o : Option A) (e : ProxyError) → IsFramed (ok_or o e)
  ok_or-IsFramed none x = raise-IsFramed x
  ok_or-IsFramed (some a) x = pure-IsFramed a

  pub if-IsFramed :
      (test : Bool) {m k : M A} → IsFramed m → IsFramed k → IsFramed (if test then m else k)
  if-IsFramed true hm hk = hm
  if-IsFramed false hm hk = hk

  pub same-IsFramed : {m k : M A} → ((s : Conn) → m s ≡ k s) → IsFramed m → IsFramed k
  same-IsFramed same h = subst IsFramed (fun_ext same) h

  pub timeout-IsFramed : {m : M A} → IsFramed m → IsFramed (timeout m)
  timeout-IsFramed {m} h = record {
    frames = λ s a s' e.
        let (used, i, again) = h.frames s a s' (unexpired (m s).0 (m s).1 a s' e) in
        (used, i, λ rest segments ending. ap expire (again rest segments ending));
  }
    where
      unexpired :
          (o : Outcome A) (t : Conn) (a : A) (s' : Conn)
          → expire (o, t) ≡ (done a, s')
          → ◌≡◌ {A = Outcome A × Conn} (o, t) (done a, s')
      unexpired (done x) t a s' e = e
      unexpired (fail x) t a s' e = absurd (cc)
      unexpired hung t a s' e = absurd (cc)

pub fail_if-IsFramed : (test : Bool) (e : ProxyError) → IsFramed (fail_if test e)
fail_if-IsFramed true x = record { frames = λ s a s' e. absurd (cc) }
fail_if-IsFramed false x = pure-IsFramed tt

pub record_event-IsFramed : (e : Event) → IsFramed (record_event e)
record_event-IsFramed x = record {
  frames = λ s b s' e.
      used-Frames (record_event x) s tt b (record s { events = s.events ++ x ∷ [] }) s' [] e refl
        (λ rest segments ending. refl);
}

pub read_exact-IsFramed : (n : ℕ) → IsFramed (read_exact n)
read_exact-IsFramed n = record {
  frames = λ s a s' e.
      let (i, l, t) = read_exact-eq-done n s e in
      used-Frames (read_exact n) s a a (record s { input = s'.input }) s' a
        (ap (λ x. (done a, x)) t) i
        (λ rest segments ending.
          read_exact-append n a rest (before s (a ++ rest) segments ending) refl l);
}

write_room-IsFramed : (room : Option ℕ) (bs : Bytes) → IsFramed (write_room room bs)
unfolding write_room
write_room-IsFramed none bs = record {
  frames = λ s b s' e.
      used-Frames (write_room none bs) s tt b (record s { output = s.output ++ bs }) s' [] e refl
        (λ rest segments ending. refl);
}
write_room-IsFramed (some r) bs = elim (Bool-cases (leb (length bs) r)) [
  | inl fits ↦ record {
    frames = λ s b s' e.
        used-Frames (write_room (some r) bs) s tt b
          (record s { output = s.output ++ bs; room = some (r - length bs) }) s' [] (rw fits at e)
          refl (λ rest segments ending. rw fits refl);
  }
  | inr short ↦ record { frames = λ s b s' e. absurd (short_fails s b s' (rw short at e)) }
]
  where
    short_fails :
        (s : Conn) (b : Unit {0}) (s' : Conn)
        → ◌≡◌ {A = Outcome (Unit {0}) × Conn}
            (fail (io broken_pipe), record s { output = s.output ++ take r bs; room = some 0 })
            (done b, s')
        → ⊥
    short_fails s b s' e = cc

pub write_all-IsFramed : (bs : Bytes) → IsFramed (write_all bs)
unfolding write_all
write_all-IsFramed bs = record {
  frames = λ s b s' e. (write_room-IsFramed s.room bs).frames s b s' e;
}

pub bind-IsFramed :
    {A B : Type 0} {m : M A} {f : A → M B}
    → IsFramed m
    → ((a : A) → IsFramed (f a))
    → IsFramed (m >>= f)
bind-IsFramed {A} {B} {m = m} {f = f} hm hf = record {
  frames = λ s b s' e.
      let (a, t, e1, e2) = bind-eq-done m f s e in
      let (used, i, again) = hm.frames s a t e1 in
      let (more, j, go_on) = (hf a).frames t b s' e2 in
      (
        used ++ more,
        i ∙ ap (λ x. used ++ x) j ∙ sym (append_assoc used more s'.input),
        λ rest segments ending.
            ap (λ x. (m >>= f) (before s x segments ending)) (append_assoc used more rest)
            ∙ ap (λ p. bind_outcome p.0 p.1 f) (again (more ++ rest) segments ending)
            ∙ go_on rest segments ending,
      );
}

pub ruleset framed_rules = (
  pure-IsFramed, raise-IsFramed, ok_or-IsFramed, fail_if-IsFramed, if-IsFramed, timeout-IsFramed,
  read_exact-IsFramed, write_all-IsFramed, record_event-IsFramed, bind-IsFramed,
)
