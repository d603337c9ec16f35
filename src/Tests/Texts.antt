-- ===== src/Tests/Texts.antt =====
-- Runs of the operations on memory and strings.
use diplomski_rad.Base.{ℕ, ◌≡◌, refl, some, ◌==◌, if◌then◌else◌, arith}
use diplomski_rad.Base.Int.{ℤ, negsuc}
use diplomski_rad.Strings.{Mem, strcmp, strstr, strstr_from, match_from, strlen, strlen_from}
use diplomski_rad.Strings.Ends.{IsString}
use diplomski_rad.Strings.Compare.{IsBytes, Compared, IsCharLess, strcmp-Compared}
use diplomski_rad.Strings.Search.{Located, strstr-Located}
use diplomski_rad.Numerals.{itoa}
use diplomski_rad.Numerals.RoundTrip.{Printed, IsInt, itoa-read_number}

-- "ab" at 1 and "b" at 7.
abbrev pub texts : Mem
texts a = if a == 1 then 97 else if a == 2 then 98 else if a == 7 then 98 else 0

texts-IsBytes : IsBytes texts
texts-IsBytes a = ground arith

ab-IsString : IsString texts 1 2
ab-IsString = record { inside = λ i small e. ground arith; ends = refl }

b-IsString : IsString texts 7 1
b-IsString = record { inside = λ i small e. ground arith; ends = refl }

strlen_ab : strlen 10 1 texts ≡ some 2
unfolding strlen strlen_from
strlen_ab = refl

strstr_finds : strstr 10 1 7 texts ≡ some 2
unfolding strstr strstr_from match_from
strstr_finds = refl

minus_42-IsInt : IsInt (negsuc 41)
minus_42-IsInt = (omega arith, omega arith)

strcmp-Compared_example :
    (c : ℤ) × (strcmp 10 1 7 texts ≡ some c) × Compared IsCharLess texts 1 7 3 c
strcmp-Compared_example = strcmp-Compared 10 1 7 2 texts texts-IsBytes ab-IsString (omega arith)

strstr-Located_example : Located texts 1 7 2 1 (strstr 10 1 7 texts)
strstr-Located_example =
    strstr-Located 10 1 7 2 1 texts ab-IsString b-IsString (omega arith, omega arith) (omega arith)
      (omega arith)

itoa-read_number_example :
    (after : Mem) × (n : ℕ) × (itoa 20 100 (negsuc 41) texts ≡ some after)
    × Printed texts after 20 (negsuc 41) n
itoa-read_number_example = itoa-read_number 20 (negsuc 41) texts minus_42-IsInt
