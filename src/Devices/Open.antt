-- ===== src/Devices/Open.antt =====
-- Opening and closing of devices: a device that is not shared is open for one user at a time.
use diplomski_rad.Base.{
  ℕ, ◌≡◌, ◌≢◌, refl, ◌∙◌, Bool, true, false, ◌&&◌, some, List, ◌∷◌, arith, if◌then◌else◌,
}
use diplomski_rad.Base.Int.{ℤ, pos}
use diplomski_rad.Threads.{null}
use diplomski_rad.Strings.{strcmp}
use diplomski_rad.Devices.{
  Devs, Kdevice, put_device, is_zero, is_not_shared, open_from, k_device_open, k_device_close,
}

-- The device `d` at `a` is the first one with the name, by `strcmp`.
pub data Finds (fuel name : ℕ) (s : Devs) (a : ℕ) (d : Kdevice) : List ℕ → Type 0 where
  here :
      (kdevs : List ℕ)
      → s.kdevices a ≡ some d
      → strcmp fuel name d.dev.dev_name s.mem ≡ some (pos 0)
      → Finds fuel name s a d (a ∷ kdevs)
  there :
      (kdev : ℕ) (kdevs : List ℕ) (d' : Kdevice) (order : ℤ)
      → kdev ≢ a
      → s.kdevices kdev ≡ some d'
      → strcmp fuel name d'.dev.dev_name s.mem ≡ some order
      → is_zero order ≡ false
      → Finds fuel name s a d kdevs
      → Finds fuel name s a d (kdev ∷ kdevs)

abbrev opened : Devs → ℕ → Kdevice → Bool → Devs
opened s a d b = put_device a (record d { is_open = b }) s

opened_or_not :
    (b : Bool) (x y : ℕ × Devs) → (if b then some x else some y) ≡ some (if b then x else y)
opened_or_not true x y = refl
opened_or_not false x y = refl

at_other : (b a : ℕ) (d : Kdevice) (s : Devs) → b ≢ a → (put_device a d s).kdevices b ≡ s.kdevices b
at_other b a d s other = ground arith

at_place : (a : ℕ) (d : Kdevice) (s : Devs) → (put_device a d s).kdevices a ≡ some d
at_place a d s = ground arith

-- What opening the device that is found leads to.
open_from-Finds :
    (fuel name : ℕ) (s : Devs) (a : ℕ) (d : Kdevice) (kdevs : List ℕ)
    → Finds fuel name s a d kdevs
    → open_from fuel name kdevs s
      ≡ some (if is_not_shared d.dev && d.is_open then (null, s) else (a, opened s a d true))
unfolding open_from
open_from-Finds fuel name s a d kdevs (here rest live same) =
    rw (live, same)
      (opened_or_not (is_not_shared d.dev && d.is_open) (null, s) (a, opened s a d true))
open_from-Finds fuel name s a d kdevs (there kdev rest d' order other live differs unequal find) =
    rw (live, differs, unequal) (open_from-Finds fuel name s a d rest find)

-- Whether the device is open does not change which one is found.
Finds-opened :
    (fuel name : ℕ) (s : Devs) (a : ℕ) (d : Kdevice) (b : Bool) (kdevs : List ℕ)
    → Finds fuel name s a d kdevs
    → Finds fuel name (opened s a d b) a (record d { is_open = b }) kdevs
Finds-opened fuel name s a d b kdevs (here rest live same) = here rest (ground arith) same
Finds-opened fuel name s a d b kdevs (there kdev rest d' order other live differs unequal find) =
    there kdev rest d' order other (at_other kdev a (record d { is_open = b }) s other ∙ live)
      differs unequal (Finds-opened fuel name s a d b rest find)

-- The uses of a device that is not shared: it is opened, then refused, and after it is closed it is
-- opened again.
pub record TakesTurns (fuel name : ℕ) (s : Devs) (a : ℕ) : Type 0 where
  pub first : Devs
  pub opens : k_device_open fuel name s ≡ some (a, first)
  pub refuses : k_device_open fuel name first ≡ some (null, first)
  pub freed : Devs
  pub closes : k_device_close a first ≡ some freed
  pub second : Devs
  pub opens_again : k_device_open fuel name freed ≡ some (a, second)

-- A device that is not shared, not open, and the first in the list with a name, is opened by
-- k_device_open under that name, a second k_device_open returns NULL, and after k_device_close it
-- can be opened again; strcmp has to end within its rounds on the names up to the device's.
k_device_open-TakesTurns :
    (fuel name : ℕ) (s : Devs) (a : ℕ) (d : Kdevice)
    → Finds fuel name s a d s.devices
    → is_not_shared d.dev ≡ true
    → d.is_open ≡ false
    → TakesTurns fuel name s a
unfolding k_device_open k_device_close
k_device_open-TakesTurns fuel name s a d find exclusive free =
    let once = opened s a d true in
    let find' = Finds-opened fuel name s a d true s.devices find in
    let find'' =
      Finds-opened fuel name once a (record d { is_open = true }) false s.devices find' in
    record {
      first = once;
      opens = open_from-Finds fuel name s a d s.devices find ∙ rw (exclusive, free) refl;
      refuses =
          open_from-Finds fuel name once a (record d { is_open = true }) s.devices find'
          ∙ rw exclusive refl;
      freed = opened once a (record d { is_open = true }) false;
      closes = rw (at_place a (record d { is_open = true }) s) refl;
      second =
          opened (opened once a (record d { is_open = true }) false) a
            (record d { is_open = false }) true;
      opens_again =
          open_from-Finds fuel name (opened once a (record d { is_open = true }) false) a
            (record d { is_open = false }) s.devices find''
          ∙ rw exclusive refl;
    }
