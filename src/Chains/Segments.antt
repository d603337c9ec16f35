-- ===== src/Chains/Segments.antt =====
-- What a doubly linked list in the store stands for: the addresses of its elements in order.
use diplomski_rad.Base.{ℕ, ◌≡◌, ◌≢◌, refl, ◌∙◌, sym, true, false, List, [], ◌∷◌, ◌++◌, arith}
use diplomski_rad.Base.Members.{has, IsOnce}
use diplomski_rad.Threads.{null}
use diplomski_rad.Chains.{ListH, Store}

-- The elements from `first` to `last`, where `p` stands before the first one.
abbrev pub IsSeg : (ℕ → ListH) → ℕ → ℕ → ℕ → List ℕ → Type 0
IsSeg f p first last [] = (first ≡ null) × (last ≡ p)
IsSeg f p first last (x ∷ xs) =
    (first ≡ x) × (x ≢ null) × ((f x).prev ≡ p) × IsSeg f x (f x).next last xs

-- The list at `l` has the elements `xs`, each once.
pub record IsList (s : Store) (l : ℕ) (xs : List ℕ) : Type 0 where
  pub seg : IsSeg s.hdr null (s.list l).first (s.list l).last xs
  pub once : IsOnce xs

-- Elements elsewhere do not matter.
pub IsSeg-frame :
    (f g : ℕ → ListH) (p a z : ℕ) (xs : List ℕ)
    → ((b : ℕ) → has b xs ≡ true → g b ≡ f b)
    → IsSeg f p a z xs
    → IsSeg g p a z xs
unfolding has
IsSeg-frame f g p a z [] same h = h
IsSeg-frame f g p a z (x ∷ xs) same h =
    let at_x : g x ≡ f x = same x (ground arith) in
    (
      h.0,
      h.1,
      rw at_x (h.2),
      rw at_x (IsSeg-frame f g x (f x).next z xs (λ b i. same b (ground (arith, i))) (h.3)),
    )

-- The last element is one of them.
pub has-last :
    (f : ℕ → ListH) (p a z x : ℕ) (xs : List ℕ) → IsSeg f p a z (x ∷ xs) → has z (x ∷ xs) ≡ true
unfolding has
has-last f p a z x [] h = ground (arith, h.3)
has-last f p a z x (y ∷ ys) h =
    let deep = has-last f x (f x).next z y ys (h.3) in ground (arith, deep)

-- No element is the null pointer.
pub ne_null_of_has :
    (f : ℕ → ListH) (p a z b : ℕ) (xs : List ℕ) → IsSeg f p a z xs → has b xs ≡ true → b ≢ null
unfolding has
ne_null_of_has f p a z b [] h i = cc (i)
ne_null_of_has f p a z b (x ∷ xs) h i =
    let deep = ne_null_of_has f x (f x).next z b xs (h.3) in ground (arith, i, deep, h.1)

-- `g` differs from `f` in that `h` follows the element `z`.
pub record Follows (f g : ℕ → ListH) (z h : ℕ) : Type 0 where
  pub same : (b : ℕ) → b ≢ z → b ≢ h → g b ≡ f b
  pub before : (g z).prev ≡ (f z).prev
  pub after : (g z).next ≡ h
  pub back : (g h).prev ≡ z
  pub end : (g h).next ≡ null

-- A segment with an element grows at its end.
pub IsSeg-snoc :
    (f g : ℕ → ListH) (p a z h x : ℕ) (xs : List ℕ)
    → IsSeg f p a z (x ∷ xs)
    → IsOnce (x ∷ xs)
    → has h (x ∷ xs) ≡ false
    → h ≢ null
    → Follows f g z h
    → IsSeg g p a h (x ∷ xs ++ h ∷ [])
unfolding has
IsSeg-snoc f g p a z h x [] seg once out nh w =
    let same : z ≡ x = seg.3.1 in
    let was : (f z).prev ≡ p = rw same (seg.2) in
    let back : (g x).prev ≡ p = rw (sym same) (w.before ∙ was) in
    let after : (g x).next ≡ h = rw (sym same) (w.after) in
    (seg.0, seg.1, back, (after, nh, w.back ∙ same, (w.end, refl)))
IsSeg-snoc f g p a z h x (y ∷ ys) seg once out nh w =
    let last_in = has-last f x (f x).next z y ys (seg.3) in
    let not_last : x ≢ z = λ q. cc (once.0, last_in, q) in
    let not_new : x ≢ h = ground (arith, out) in
    let at_x : g x ≡ f x = w.same x not_last not_new in
    let deep = IsSeg-snoc f g x (f x).next z h y ys (seg.3) once.1 (ground (arith, out)) nh w in
    (seg.0, seg.1, rw at_x (seg.2), rw at_x deep)
