-- ===== src/Stream/Laws.antt =====
-- What the calls of `Stream` do on a connection whose next bytes are known.
use peregrine_proxy.Base.{
  ℕ, zero, suc, Bool, true, false, Option, ◌≤◌, ◌<◌, min, max, ◌≡◌, refl, ap, ◌∙◌, none, some, List,
  [], ◌∷◌, ◌++◌, arith, length, take, drop, length-append, take-append, drop-append, le→leb,
}
use peregrine_proxy.Base.Text.{Bytes}
use peregrine_proxy.Error.{ProxyError}
use peregrine_proxy.Stream.{
  Conn, M, Outcome, done, fail, hung, bind_outcome, ◌>>=◌, fail_if, ok_or, read_exact, read_some,
  segment, read, write_all, timeout,
}

-- A read of exactly the first part of what the peer sent.
pub read_exact-append :
    (n : ℕ) (bs rest : Bytes) (s : Conn)
    → s.input ≡ bs ++ rest
    → length bs ≡ n
    → read_exact n s ≡ (done bs, record s { input = rest })
unfolding read_exact
read_exact-append n bs rest s e h = rw (
  e,
  le→leb n (length (bs ++ rest)) (omega (arith, length-append bs rest)),
  take-append n bs rest h,
  drop-append n bs rest h,
)

pub write_all_open :
    (bs : Bytes) (s : Conn)
    → s.room ≡ none
    → write_all bs s ≡ (done tt, record s { output = s.output ++ bs })
unfolding write_all
write_all_open bs s e = rw (e, write_all)

take-append-drop {ℓ} : {A : Type ℓ} (n : ℕ) (xs : List A) → take n xs ++ drop n xs ≡ xs
take-append-drop zero xs = refl
take-append-drop (suc n) [] = refl
take-append-drop (suc n) (x ∷ xs) = ap (◌∷◌ x) (take-append-drop n xs)

length-take {ℓ} : {A : Type ℓ} (n : ℕ) (xs : List A) → n ≤ length xs → length (take n xs) ≡ n
length-take zero xs h = refl
length-take (suc n) [] h = absurd (omega arith)
length-take (suc n) (x ∷ xs) h = ap suc (length-take n xs (omega arith))

-- A read that ends well has taken exactly its bytes from the front, and changed nothing else.
pub read_exact-eq-done :
    (n : ℕ) (s : Conn) {bs : Bytes} {s' : Conn}
    → read_exact n s ≡ (done bs, s')
    → (s.input ≡ bs ++ s'.input) × (length bs ≡ n) × (record s { input = s'.input } ≡ s')
unfolding read_exact
read_exact-eq-done n s h = ground (arith, take-append-drop n s.input, length-take n s.input)

-- A bind that ends well has run both parts.
pub bind-eq-done :
    {A B : Type 0} (m : M A) (f : A → M B) (s : Conn) {b : B} {s' : Conn}
    → (m >>= f) s ≡ (done b, s')
    → (a : A) × (t : Conn) × (m s ≡ (done a, t)) × (f a t ≡ (done b, s'))
bind-eq-done {A} {B} m f s {b} {s'} h = go (m s).0 (m s).1 refl h
  where
    go :
        (o : Outcome A) (t : Conn)
        → m s ≡ (o, t)
        → bind_outcome o t f ≡ (done b, s')
        → (a : A) × (t : Conn) × (m s ≡ (done a, t)) × (f a t ≡ (done b, s'))
    go (done a) t e k = (a, t, e, k)
    go (fail x) t e k = absurd (cc)
    go hung t e k = absurd (cc)

pub fail_if-eq-done :
    (test : Bool) (e : ProxyError) (s : Conn) {u : Unit {0}} {s' : Conn}
    → fail_if test e s ≡ (done u, s')
    → (test ≡ false) × (s' ≡ s)
fail_if-eq-done true e s h = absurd (cc)
fail_if-eq-done false e s h = (refl, cc)

pub ok_or-eq-done :
    {A : Type 0} (o : Option A) (e : ProxyError) (s : Conn) {a : A} {s' : Conn}
    → ok_or o e s ≡ (done a, s')
    → (o ≡ some a) × (s' ≡ s)
ok_or-eq-done none e s h = absurd (cc)
ok_or-eq-done (some a) e s h = (cc, cc)

-- A read that ends well has taken exactly its bytes from the front.
pub read_timed-eq-done :
    (n : ℕ) (s : Conn) {bs : Bytes} {s' : Conn}
    → timeout (read_exact n) s ≡ (done bs, s')
    → (s.input ≡ bs ++ s'.input) × (length bs ≡ n) × (s'.room ≡ s.room) × (s'.output ≡ s.output)
unfolding read_exact
read_timed-eq-done n s h = ground (arith, take-append-drop n s.input, length-take n s.input)

read_some-append :
    (n : ℕ) (bs rest : Bytes) (later : List ℕ) (s : Conn)
    → s.segments ≡ length bs ∷ later
    → 0 < length bs
    → length bs ≤ n
    → read_some n (bs ++ rest) s ≡ (done bs, record s { input = rest; segments = later })
unfolding read_some
read_some-append n [] rest later s k pos fits = elim pos [ ]
read_some-append n (b ∷ bs) rest later s k pos fits =
    let whole : max 1 (min n (length (b ∷ bs))) ≡ length (b ∷ bs) = omega arith in
    rw (k, read_some)
      (rw (
        whole,
        take-append (length (b ∷ bs)) (b ∷ bs) rest refl,
        drop-append (length (b ∷ bs)) (b ∷ bs) rest refl,
      ))

-- A read that finds one segment of the peer's.
pub read-append :
    (n : ℕ) (bs rest : Bytes) (later : List ℕ) (s : Conn)
    → s.input ≡ bs ++ rest
    → s.segments ≡ length bs ∷ later
    → 0 < length bs
    → length bs ≤ n
    → read n s ≡ (done bs, record s { input = rest; segments = later })
unfolding read
read-append n bs rest later s e k pos fits =
    ap (λ i. read_some n i s) e ∙ read_some-append n bs rest later s k pos fits

take_first : (n b : ℕ) (bs : Bytes) → 0 < n → (more : Bytes) × (take n (b ∷ bs) ≡ b ∷ more)
take_first zero b bs h = absurd (omega arith)
take_first (suc n) b bs h = (take n bs, refl)

segment_positive : (n : ℕ) (ks : List ℕ) → 0 < n → 0 < segment n ks
unfolding segment
segment_positive n [] h = h
segment_positive n (k ∷ ks) h = omega arith

read_some-first :
    (n b : ℕ) (bs : Bytes) (s : Conn)
    → 0 < n
    → (more : Bytes) × ((read_some n (b ∷ bs) s).0 ≡ done (b ∷ more))
unfolding read_some
read_some-first n b bs s h =
    let (more, e) = take_first (segment n s.segments) b bs (segment_positive n s.segments h) in
    (more, ap done e)

-- A read at a connection whose peer has sent bytes finds the first of them.
pub read-first :
    (n b : ℕ) (bs : Bytes) (s : Conn)
    → 0 < n
    → s.input ≡ b ∷ bs
    → (more : Bytes) × ((read n s).0 ≡ done (b ∷ more))
unfolding read
read-first n b bs s h e =
    let (more, found) = read_some-first n b bs s h in
    (more, ap (λ i. (read_some n i s).0) e ∙ found)
