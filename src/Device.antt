-- ===== src/Device.antt =====
-- source/device/dev.c and source/include/dev.h: the table of open devices. The only supported type
-- is the disk, whose operations act on a state `W` (the disk driver and the hardware behind it).
pub mod Open
use mango_os.Base.{
  ℕ, ◌+◌, Bool, true, false, not, ◌&&◌, Option, none, some, List, [], ◌∷◌, ◌==◌, if◌then◌else◌,
  get_or, set, inc32, dec32,
}

-- `device_t`; of its `type` the major number is kept, since all types have the disk's operations.
pub record Device : Type 0 where
  pub major : ℕ
  pub minor : ℕ
  pub mode : ℕ
  pub param : ℕ
  pub open_count : ℕ

abbrev pub dev_disk : ℕ
dev_disk = 1

abbrev pub blank_device : Device
blank_device = record { major = 0; minor = 0; mode = 0; param = 0; open_count = 0 }

abbrev pub DevTable : Type 0
DevTable = List Device

pub data Found : Type 0 where
  opened : ℕ → Found
  slot : Option ℕ → Found

abbrev pub is_open : Device → Bool
is_open d = not (d.open_count == 0)

abbrev pub is_device : ℕ → ℕ → Device → Bool
is_device major minor d = (d.major == major) && (d.minor == minor)

abbrev first_free : Option ℕ → ℕ → Option ℕ
first_free none i = some i
first_free (some j) i = some j

-- The first loop of `dev_open`: the device if it is open already, else the first free entry.
unfoldable pub dev_scan : ℕ → ℕ → DevTable → ℕ → Option ℕ → Found
dev_scan major minor [] i free = slot free
dev_scan major minor (d ∷ ds) i free =
    let next = dev_scan major minor ds (i + 1) (if is_open d then free else first_free free i) in
    if is_open d && is_device major minor d then opened i else next

-- The second loop of `dev_open`, over the supported types: the type that is left in `dev_type` when
-- the loop ends, by a hit or not.
unfoldable pub find_type : ℕ → List ℕ → Option ℕ → Option ℕ
find_type major [] found = found
find_type major (t ∷ ts) found =
    let next = find_type major ts (some t) in if major == t then some t else next

abbrev pub support_table : List ℕ
support_table = dev_disk ∷ []

module _ {W : Type 0} (open_disk : Device → W → Bool × W) (close_disk : Device → W → W) where
  -- The entry `i` is filled in; it counts as open if the driver reports no error (`true`).
  unfoldable pub dev_fill : ℕ → ℕ → ℕ → ℕ → DevTable → W → Option ℕ × DevTable × W
  dev_fill i type minor param t w =
      let d = record (get_or t i blank_device) { major = type; minor = minor; param = param } in
      let (ok, w') = open_disk d w in
      if ok then (some i, set t i (record d { open_count = 1 }), w') else (none, set t i d, w')

  -- `none` is -ENODEV.
  unfoldable pub dev_open : ℕ → ℕ → ℕ → DevTable → W → Option ℕ × DevTable × W
  unfolding dev_fill
  dev_open major minor param t w = elim (dev_scan major minor t 0 none) [
    | opened i ↦
        let d = get_or t i blank_device in
        (some i, set t i (record d { open_count = inc32 d.open_count }), w)
    | slot none ↦ (none, t, w)
    | slot (some i) ↦ elim (find_type major support_table none) [
      | none ↦ (none, t, w)
      | some type ↦ dev_fill i type minor param t w
    ]
  ]

  unfoldable pub dev_close : ℕ → DevTable → W → DevTable × W
  dev_close i t w =
      let d = get_or t i blank_device in
      let d' = record d { open_count = dec32 d.open_count } in
      (set t i d', if d'.open_count == 0 then close_disk d' w else w)

-- `dev_read` and `dev_write` pass the call on to the driver of the entry.
module _ {W D R : Type 0} (transfer : Device → ℕ → D → ℕ → W → R × W) where
  unfoldable pub dev_read : ℕ → ℕ → D → ℕ → DevTable → W → R × W
  dev_read i start buf size t w = transfer (get_or t i blank_device) start buf size w

  unfoldable pub dev_write : ℕ → ℕ → D → ℕ → DevTable → W → R × W
  dev_write i start buf size t w = transfer (get_or t i blank_device) start buf size w

-- `dev_ctrol`, in the same way.
module _ {W A R : Type 0} (control : Device → ℕ → A → W → R × W) where
  unfoldable pub dev_ctrol : ℕ → ℕ → A → DevTable → W → R × W
  dev_ctrol i cmd arg t w = control (get_or t i blank_device) cmd arg w
