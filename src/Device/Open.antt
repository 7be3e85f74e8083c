-- ===== src/Device/Open.antt =====
-- Which entry `dev_open` returns, and what the counts say.
use mango_os.Base.{
  ℕ, ◌+◌, ◌≡◌, refl, Bool, not, ◌&&◌, Option, none, some, [], ◌∷◌, get_or, set, find_index,
  find_from, inc32, arith,
}
use mango_os.Device.{
  Device, DevTable, blank_device, Found, opened, slot, is_open, is_device, dev_scan, find_type,
  dev_fill, dev_open, dev_disk,
}

-- The open entry for a device.
abbrev pub held : ℕ → ℕ → Device → Bool
held major minor d = is_open d && is_device major minor d

-- What one pass over the table finds: the device wherever it is open, else the lowest free entry.
abbrev pub expected : Option ℕ → Option ℕ → Found
expected (some i) free = opened i
expected none free = slot free

abbrev or_else : Option ℕ → Option ℕ → Option ℕ
or_else none b = b
or_else (some i) b = some i

dev_scan_lem :
    (major minor : ℕ) (t : DevTable) (i : ℕ) (free : Option ℕ)
    → dev_scan major minor t i free
      ≡ expected
          (find_from (held major minor) t i)
          (or_else free (find_from (λ d. not (is_open d)) t i))
unfolding dev_scan
dev_scan_lem major minor [] i none = refl
dev_scan_lem major minor [] i (some j) = refl
dev_scan_lem major minor (d ∷ ds) i none =
    ground (
      arith,
      dev_scan_lem major minor ds (i + 1) none,
      dev_scan_lem major minor ds (i + 1) (some i),
    )
dev_scan_lem major minor (d ∷ ds) i (some j) =
    ground (arith, dev_scan_lem major minor ds (i + 1) (some j))

pub dev_scan-expected :
    (major minor : ℕ) (t : DevTable)
    → dev_scan major minor t 0 none
      ≡ expected (find_index (held major minor) t) (find_index (λ d. not (is_open d)) t)
dev_scan-expected major minor t = dev_scan_lem major minor t 0 none

module _ {W : Type 0} (open_disk : Device → W → Bool × W) (close_disk : Device → W → W) where
  -- A device that is open is found again, and one more user is counted.
  pub dev_open_again :
      (major minor param : ℕ) (t : DevTable) (w : W) (i : ℕ)
      → find_index (held major minor) t ≡ some i
      → dev_open open_disk close_disk major minor param t w ≡ (
        some i,
        set t i (record (get_or t i blank_device) {
          open_count = inc32 (get_or t i blank_device).open_count;
        }),
        w,
      )
  unfolding dev_open
  dev_open_again major minor param t w i e = ground (arith, dev_scan-expected major minor t)

  -- A device that is not open, of whatever major number, is opened as the disk in the lowest free
  -- entry, if there is one.
  pub dev_open_new :
      (major minor param : ℕ) (t : DevTable) (w : W) (i : ℕ)
      → find_index (held major minor) t ≡ none
      → find_index (λ d. not (is_open d)) t ≡ some i
      → dev_open open_disk close_disk major minor param t w
        ≡ dev_fill open_disk close_disk i dev_disk minor param t w
  unfolding dev_open find_type
  dev_open_new major minor param t w i e f = ground (arith, dev_scan-expected major minor t)

  -- With neither there is no device.
  pub dev_open_full :
      (major minor param : ℕ) (t : DevTable) (w : W)
      → find_index (held major minor) t ≡ none
      → find_index (λ d. not (is_open d)) t ≡ none
      → dev_open open_disk close_disk major minor param t w ≡ (none, t, w)
  unfolding dev_open
  dev_open_full major minor param t w e f = ground (arith, dev_scan-expected major minor t)
