-- ===== src/Chains/Erase.antt =====
-- What a segment is after an element is unlinked from it.
use diplomski_rad.Base.{
  ℕ, ◌≡◌, ◌≢◌, refl, ◌∙◌, sym, ◌⊎◌, inl, inr, true, false, List, [], ◌∷◌, ◌==◌, arith,
  if◌then◌else◌, Bool-cases, eq_of_test, ne_of_test,
}
use diplomski_rad.Base.Members.{has, erase, IsOnce}
use diplomski_rad.Threads.{null}
use diplomski_rad.Chains.{ListH}
use diplomski_rad.Chains.Segments.{IsSeg, has-last, ne_null_of_has}

-- Only the two pointers of its elements matter for a segment.
IsSeg-same :
    (f g : ℕ → ListH) (p a z : ℕ) (xs : List ℕ)
    → ((b : ℕ) → has b xs ≡ true → ((g b).prev ≡ (f b).prev) × ((g b).next ≡ (f b).next))
    → IsSeg f p a z xs
    → IsSeg g p a z xs
unfolding has
IsSeg-same f g p a z [] same h = h
IsSeg-same f g p a z (x ∷ xs) same h =
    let at_x = same x (ground arith) in
    (
      h.0,
      h.1,
      at_x.0 ∙ h.2,
      rw (at_x.1) (IsSeg-same f g x (f x).next z xs (λ b i. same b (ground (arith, i))) (h.3)),
    )

-- The element after one of a segment is null or in the segment, and so is the one before, unless
-- it is the one that stands before the segment.
next_in :
    (f : ℕ → ListH) (p a z r : ℕ) (xs : List ℕ)
    → IsSeg f p a z xs
    → has r xs ≡ true
    → ((f r).next ≡ null) ⊎ (has (f r).next xs ≡ true)
unfolding has
next_in f p a z r [] h i = cc (i)
next_in f p a z r (x ∷ []) h i = let same : r ≡ x = ground (arith, i) in inl (rw same (h.3.0))
next_in f p a z r (x ∷ y ∷ ys) h i = elim (Bool-cases (r == x)) [
  | inl e ↦ inr (rw (eq_of_test r x e, h.3.0) (ground arith))
  | inr e ↦
      let deep = next_in f x (f x).next z r (y ∷ ys) (h.3) (ground (arith, i, e)) in
      elim deep [ inl n ↦ inl n | inr m ↦ inr (ground (arith, m)) ]
]

prev_in :
    (f : ℕ → ListH) (p a z r : ℕ) (xs : List ℕ)
    → IsSeg f p a z xs
    → has r xs ≡ true
    → ((f r).prev ≡ p) ⊎ (has (f r).prev xs ≡ true)
unfolding has
prev_in f p a z r [] h i = cc (i)
prev_in f p a z r (x ∷ xs) h i = elim (Bool-cases (r == x)) [
  | inl e ↦ inl (rw (eq_of_test r x e) (h.2))
  | inr e ↦
      let deep = prev_in f x (f x).next z r xs (h.3) (ground (arith, i, e)) in
      inr (elim deep [ inl n ↦ ground (arith, n) | inr m ↦ ground (arith, m) ])
]

-- The element before a segment is the one before `r` exactly where `r` comes first.
first_after :
    (f : ℕ → ListH) (p a z r : ℕ) (xs : List ℕ)
    → IsSeg f p a z xs
    → IsOnce xs
    → has p xs ≡ false
    → has r xs ≡ true
    → (p == (f r).prev) ≡ (a == r)
unfolding has
first_after f p a z r [] h once out i = cc (i)
first_after f p a z r (x ∷ xs) h once out i = elim (Bool-cases (r == x)) [
  | inl e ↦
      let same = eq_of_test r x e in
      let head : a ≡ r = h.0 ∙ sym same in
      let back : p ≡ (f r).prev = rw same (sym (h.2)) in
      let l : (p == (f r).prev) ≡ true = ground (arith, back) in
      let k : (a == r) ≡ true = ground (arith, head) in l ∙ sym k
  | inr e ↦
      let deep = prev_in f x (f x).next z r xs (h.3) (ground (arith, i, e)) in
      let inside : has (f r).prev (x ∷ xs) ≡ true = elim deep [
        | inl n ↦ ground (arith, n)
        | inr m ↦ ground (arith, m)
      ] in
      let ne : p ≢ (f r).prev = λ q. cc (inside, out, q) in
      let l : (p == (f r).prev) ≡ false = ground (arith, ne) in
      let k : (a == r) ≡ false = ground (arith, h.0, e) in l ∙ sym k
]

-- `g` differs from `f` in that the neighbours of `r` point past it.
pub record Unlinked (f g : ℕ → ListH) (r : ℕ) : Type 0 where
  pub next_of :
      (b : ℕ) → b ≢ null → b ≢ r → (g b).next ≡ (if b == (f r).prev then (f r).next else (f b).next)
  pub prev_of :
      (b : ℕ) → b ≢ null → b ≢ r → (g b).prev ≡ (if b == (f r).next then (f r).prev else (f b).prev)

-- No element is its own neighbour.
pub apart :
    (f : ℕ → ListH) (p a z r : ℕ) (xs : List ℕ)
    → IsSeg f p a z xs
    → IsOnce xs
    → has p xs ≡ false
    → has r xs ≡ true
    → ((f r).prev ≢ r) × ((f r).next ≢ r)
unfolding has
apart f p a z r [] h once out i = cc (i)
apart f p a z r (x ∷ xs) h once out i = elim (Bool-cases (r == x)) [
  | inl e ↦
      let same = eq_of_test r x e in
      let in_rest = next_head x xs (h.3) in
      rw same (
        (λ q. let back : p ≡ x = sym (h.2) ∙ q in ground (arith, out, back)),
        λ q. elim in_rest [ inl n ↦ absurd (h.1 (sym q ∙ n)) | inr m ↦ cc (m, q, once.0) ],
      )
  | inr e ↦ apart f x (f x).next z r xs (h.3) once.1 once.0 (ground (arith, i, e))
]
  where
    next_head :
        (x : ℕ) (xs : List ℕ)
        → IsSeg f x (f x).next z xs
        → ((f x).next ≡ null) ⊎ (has (f x).next xs ≡ true)
    next_head x [] k = inl (k.0)
    next_head x (y ∷ ys) k = inr (ground (arith, k.0))

module _ (f g : ℕ → ListH) (r : ℕ) (u : Unlinked f g r) where
  -- Elements away from `r` keep their pointers.
  untouched :
      (b : ℕ)
      → b ≢ null
      → b ≢ r
      → b ≢ (f r).prev
      → b ≢ (f r).next
      → ((g b).prev ≡ (f b).prev) × ((g b).next ≡ (f b).next)
  untouched b nb nr np nn =
      let p : (b == (f r).prev) ≡ false = ground (arith, np) in
      let n : (b == (f r).next) ≡ false = ground (arith, nn) in
      let prev = u.prev_of b nb nr in let next = u.next_of b nb nr in (rw n at prev, rw p at next)

  -- What follows `r` follows the element before it.
  closes :
      (p z : ℕ) (xs : List ℕ)
      → IsSeg f r (f r).next z xs
      → (f r).prev ≡ p
      → IsOnce xs
      → has r xs ≡ false
      → has p xs ≡ false
      → IsSeg g p (f r).next (if z == r then p else z) xs
  unfolding has
  closes p z [] h back once nr np =
      let last : (z == r) ≡ true = ground (arith, h.1) in (h.0, rw last refl)
  closes p z (y ∷ ys) h back once nr np =
      let y_r : y ≢ r = ground (arith, nr) in
      let y_p : (y == (f r).prev) ≡ false = ground (arith, np, back) in
      let y_n : (y == (f r).next) ≡ true = ground (arith, h.0) in
      let z_in = has-last f r (f r).next z y ys h in
      let z_r : (z == r) ≡ false = elim (Bool-cases (z == r)) [
        | inl e ↦ cc (z_in, nr, eq_of_test z r e)
        | inr e ↦ e
      ] in
      let prev = u.prev_of y (h.1) y_r in
      let next = u.next_of y (h.1) y_r in
      let next' : (g y).next ≡ (f y).next = rw y_p at next in
      let prev' : (g y).prev ≡ (f r).prev = rw y_n at prev in
      let tail =
        IsSeg-same f g y (f y).next z ys
          (λ b i.
            let nb = ne_null_of_has f y (f y).next z b ys (h.3) i in
            let b_r : b ≢ r = λ q. cc (i, q, tail_of r nr) in
            let b_p : b ≢ (f r).prev = λ q. cc (i, q, back, tail_of p np) in
            let b_n : b ≢ (f r).next = λ q. cc (i, q, h.0, once.0) in untouched b nb b_r b_p b_n)
          (h.3) in
      (h.0, h.1, prev' ∙ back, rw (z_r, next') tail)
    where
      tail_of : (c : ℕ) → has c (y ∷ ys) ≡ false → has c ys ≡ false
      tail_of c e = ground (arith, e)

  -- A segment loses `r`.
  pub IsSeg-erase :
      (p a z : ℕ) (xs : List ℕ)
      → IsSeg f p a z xs
      → IsOnce xs
      → has p xs ≡ false
      → has r xs ≡ true
      → IsSeg g p (if a == r then (f r).next else a) (if z == r then (f r).prev else z) (erase r xs)
  unfolding has erase
  IsSeg-erase p a z [] h once out i = cc (i)
  IsSeg-erase p a z (x ∷ xs) h once out i = elim (Bool-cases (x == r)) [
    | inl e ↦
        let same = eq_of_test x r e in
        let a_r : (a == r) ≡ true = ground (arith, h.0, e) in
        let back : (f r).prev ≡ p = rw (sym same) (h.2) in
        let seg : IsSeg f r (f r).next z xs = rw same at (h.3) in
        let once_r : has r xs ≡ false = rw same at (once.0) in
        rw (e, a_r, back) (closes p z xs seg back once.1 once_r (ground (arith, out)))
    | inr e ↦
        let nx = ne_of_test x r e in
        let a_r : (a == r) ≡ false = ground (arith, h.0, e) in
        let r_in : has r xs ≡ true = ground (arith, i, e) in
        let deep = IsSeg-erase x (f x).next z xs (h.3) once.1 once.0 r_in in
        let link = first_after f x (f x).next z r xs (h.3) once.1 once.0 r_in in
        let next = u.next_of x (h.1) nx in
        let not_next : (x == (f r).next) ≡ false = elim (Bool-cases (x == (f r).next)) [
          | inl q ↦ elim (next_in f x (f x).next z r xs (h.3) r_in) [
            | inl n ↦ absurd (h.1 (eq_of_test x (f r).next q ∙ n))
            | inr m ↦ cc (m, eq_of_test x (f r).next q, once.0)
          ]
          | inr q ↦ q
        ] in
        let prev = u.prev_of x (h.1) nx in
        let prev' : (g x).prev ≡ (f x).prev = rw not_next at prev in
        let next' : (g x).next ≡ (if (f x).next == r then (f r).next else (f x).next) =
          rw link at next in
        rw (e, a_r) (h.0, h.1, prev' ∙ h.2, rw (next') deep)
  ]
