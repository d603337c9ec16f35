-- ===== src/Strings/Search.antt =====
-- The search for a string in a string of lib/string.c: strstr.
use diplomski_rad.Base.{
  ℕ, zero, suc, ◌+◌, ◌-◌, ◌≤◌, ◌<◌, ◌≡◌, ◌≢◌, refl, inl, inr, true, false, Option, some, ◌==◌, ltb,
  arith, Bool-cases, eq_of_test, ne_of_test, not, ◌&&◌,
}
use diplomski_rad.Strings.{Mem, match_from, strstr, strstr_from}
use diplomski_rad.Strings.Ends.{IsString, up_to}

-- The first `n` characters at `p` are those at `s`.
abbrev pub Agree : Mem → ℕ → ℕ → ℕ → Type 0
Agree mem p s n = (j : ℕ) → j < n → mem (p + j) ≡ mem (s + j)

-- Where the inner loop stops, `j` characters after both starts.
record Stops (mem : Mem) (p s j : ℕ) : Type 0 where
  agree : Agree mem p s j
  stop : mem (s + j) ≢ 0 → mem (p + j) ≢ 0 → mem (p + j) ≢ mem (s + j)

match_from-Stops :
    (k fuel p s j n : ℕ) (mem : Mem)
    → IsString mem s n
    → n ≡ j + k
    → k < fuel
    → Agree mem p s j
    → (i : ℕ) × (match_from fuel p s j mem ≡ some i) × (i ≤ n) × Stops mem p s i
unfolding match_from
match_from-Stops k zero p s j n mem string e enough agree = absurd (omega arith)
match_from-Stops zero (suc fuel) p s j n mem string e enough agree = (
  j,
  grind (arith, string.ends),
  omega arith,
  record { agree = agree; stop = grind (arith, string.ends) },
)
match_from-Stops (suc k) (suc fuel) p s j n mem string e enough agree =
    elim (Bool-cases
      (not (mem (p + j) == 0) && not (mem (s + j) == 0) && (mem (p + j) == mem (s + j)))) [
        | inl go ↦ rw go (
            match_from-Stops k fuel p s (j + 1) n mem string (omega arith) (omega arith)
              (up_to j agree (ground arith)))
        | inr stop ↦ rw stop (j, refl, omega arith, record { agree = agree; stop = ground arith })
      ]

-- The answers of a search for `n` characters in a string of `m`: the first place, or none.
pub data Located (mem : Mem) (a s m n : ℕ) : Option ℕ → Type 0 where
  at :
      (i : ℕ)
      → i ≤ m
      → Agree mem (a + i) s n
      → ((j : ℕ) → j < i → ¬ Agree mem (a + j) s n)
      → Located mem a s m n (some (a + i))
  nowhere : ((j : ℕ) → j < m + 1 → ¬ Agree mem (a + j) s n) → Located mem a s m n (some 0)

-- A stop before the end of what is sought is inside the string or at its end.
stop_inside :
    (mem : Mem) (a s i j m n : ℕ)
    → IsString mem a m
    → IsString mem s n
    → i ≤ m
    → Stops mem (a + i) s j
    → j < n
    → i + j ≤ m
stop_inside mem a s i j m n string sought small stops inside = elim (Bool-cases (ltb m (i + j))) [
  | inl e ↦ absurd (
      sought.inside (m - i) (ground arith)
        (grind (arith, string.ends, stops.agree (m - i) (ground arith))))
  | inr e ↦ ground arith
]

end_of_stop : (mem : Mem) (a m i : ℕ) → IsString mem a m → i ≤ m → mem (a + i) ≡ 0 → i ≡ m
end_of_stop mem a m i string small zero_here = elim (Bool-cases (ltb i m)) [
  | inl e ↦ absurd (string.inside i (ground arith) zero_here)
  | inr e ↦ ground arith
]

add_zero : (a : ℕ) → a + 0 ≡ a
add_zero a = omega arith

add_assoc : (a i j : ℕ) → a + i + j ≡ a + (i + j)
add_assoc a i j = omega arith

no_room :
    (mem : Mem) (a s i j m n : ℕ)
    → IsString mem a m
    → IsString mem s n
    → i ≤ m
    → Stops mem (a + i) s j
    → j < n
    → mem (a + i + j) ≡ 0
    → ((i' : ℕ) → i' < i → ¬ Agree mem (a + i') s n)
    → (i' : ℕ) → i' < m + 1
    → ¬ Agree mem (a + i') s n
no_room mem a s i j m n string sought small stops inside zero_here before i' small' agree =
    elim (Bool-cases (ltb i' i)) [
      | inl e ↦ before i' (ground arith) agree
      | inr e ↦
          let bound = stop_inside mem a s i j m n string sought small stops inside in
          let last = end_of_stop mem a m (i + j) string bound (rw (← add_assoc a i j) zero_here) in
          sought.inside (m - i') (ground (arith, last))
            (grind (arith, string.ends, agree (m - i') (ground (arith, last))))
    ]

-- Where the strings differ, the sought one is not here, and this is not the end.
differs_here :
    (mem : Mem) (a s i j n : ℕ)
    → j < n
    → IsString mem s n
    → Stops mem (a + i) s j
    → mem (a + i + j) ≢ 0
    → ¬ Agree mem (a + i) s n
differs_here mem a s i j n inside sought stops nonzero agree =
    stops.stop (sought.inside j inside) nonzero (agree j inside)

not_last :
    (mem : Mem) (a s i j m n : ℕ)
    → IsString mem a m
    → IsString mem s n
    → i ≤ m
    → Stops mem (a + i) s j
    → j < n
    → mem (a + i + j) ≢ 0
    → i < m
not_last mem a s i j m n string sought small stops inside nonzero =
    let bound = stop_inside mem a s i j m n string sought small stops inside in
    grind (arith, bound, string.ends, add_assoc a i j)

inside_of_more :
    (mem : Mem) (s j n : ℕ) → IsString mem s n → j ≤ n → (mem (s + j) == 0) ≡ false → j < n
inside_of_more mem s j n sought small more = grind (arith, sought.ends)

started : (a s : ℕ) → 0 < a → 0 < s → (not (a == 0) && not (s == 0)) ≡ true
started a s ha hs = ground arith

strstr_from-Located :
    (k rounds fuel a s i m n : ℕ) (mem : Mem)
    → IsString mem a m
    → IsString mem s n
    → (0 < a) × (0 < s)
    → m ≡ i + k
    → k < rounds
    → n < fuel
    → ((j : ℕ) → j < i → ¬ Agree mem (a + j) s n)
    → Located mem a s m n (strstr_from rounds fuel (a + i) s mem)
unfolding strstr_from
strstr_from-Located k zero fuel a s i m n mem string sought there e enough enough' before =
    absurd (omega arith)
strstr_from-Located k (suc rounds) fuel a s i m n mem string sought there e enough enough' before =
    let (j, found, small, stops) =
      match_from-Stops n fuel (a + i) s 0 n mem sought (omega arith) enough'
        (λ q none_yet. absurd (omega (arith, none_yet))) in
    rw (started (a + i) s (omega (arith, there.0)) there.1, found)
      (elim (Bool-cases (mem (s + j) == 0)) [
        | inl over ↦
            let last = end_of_stop mem s n j sought small (eq_of_test (mem (s + j)) 0 over) in
            rw over (
              at i (omega arith) (λ q before_end. stops.agree q (omega (arith, last, before_end)))
                before)
        | inr more ↦
            let inside = inside_of_more mem s j n sought small more in
            rw more (elim (Bool-cases (mem (a + i + j) == 0)) [
              | inl short ↦ rw short (
                  nowhere (
                    no_room mem a s i j m n string sought (omega arith) stops inside
                      (eq_of_test (mem (a + i + j)) 0 short) before))
              | inr long ↦
                  let nonzero = ne_of_test (mem (a + i + j)) 0 long in
                  let earlier =
                    not_last mem a s i j m n string sought (omega arith) stops inside nonzero in
                  let absent = differs_here mem a s i j n inside sought stops nonzero in
                  rw (long, add_assoc a i 1)
                    (strstr_from-Located (k - 1) rounds fuel a s (i + 1) m n mem string sought there
                      (omega (arith, earlier)) (omega (arith, earlier)) enough'
                      (up_to i before absent))
            ])
      ])

-- strstr on two strings at addresses other than NULL, within more rounds than their lengths, ends
-- with the first place of the second string in the first, or with NULL where it stands nowhere in
-- it.
pub strstr-Located :
    (fuel a s m n : ℕ) (mem : Mem)
    → IsString mem a m
    → IsString mem s n
    → (0 < a) × (0 < s)
    → m < fuel
    → n < fuel
    → Located mem a s m n (strstr fuel a s mem)
unfolding strstr
strstr-Located fuel a s m n mem string sought there enough enough' =
    let whole =
      strstr_from-Located m fuel fuel a s 0 m n mem string sought there (omega arith) enough enough'
        (λ j small. absurd (omega (arith, small))) in
    rw (add_zero a) at whole
