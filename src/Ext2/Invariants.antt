-- ===== src/Ext2/Invariants.antt =====
-- What stays true through a run, and that reading blocks leaves everything but the buffers alone.
use mango_os.Base.{ℕ, Bool, true, false, Option, none, some, ◌==◌, ltb, is_pos32, minus_one}
use mango_os.Strings.{Memory, word}
use mango_os.Ipc.Guarded.{Guarded, Outcome, done, blocked}
use mango_os.Buffer.{Buffer, Cache, bget_block}
use mango_os.Ext2.{
  Inode, BlockDevice, Volume, Run, ok, waits, stuck, Cmd, pure, ◌>>=◌, ◌>>◌, gets, given, buffer,
  put_buffer, mark_dirty, get_block, read_sectors, write_sectors, sector_of, filled, fill_block,
  read_block,
}
use mango_os.Ext2.Blocks.{or_else, follow, iget_bno, direct, single, double}

-- `P` holds when the run ends, however it ends; a stuck run leaves no state.
abbrev pub Holds : {W A : Type 0} → (Volume W → Type 0) → Run W A → Type 0
Holds P (ok a v) = P v
Holds P (waits v) = P v
Holds P stuck = Unit {0}

-- Every run of a command keeps `P`.
pub record Keeps {W A : Type 0} (P : Volume W → Type 0) (m : Cmd W A) : Type 0 where
  pub holds : (v : Volume W) → P v → Holds P (m v)

module _ {W : Type 0} {P : Volume W → Type 0} where
  Holds-after :
      {A B : Type 0} (r : Run W A) (f : A → Cmd W B)
      → Holds P r
      → ((a : A) → Keeps P (f a))
      → Holds P (elim r [ ok a v' ↦ f a v' | waits v' ↦ waits v' | stuck ↦ stuck ])
  Holds-after (ok a v) f h k = (k a).holds v h
  Holds-after (waits v) f h k = h
  Holds-after stuck f h k = tt

  pub Keeps-bind :
      {A B : Type 0} {m : Cmd W A} {f : A → Cmd W B}
      → Keeps P m
      → ((a : A) → Keeps P (f a))
      → Keeps P (m >>= f)
  Keeps-bind {m} h k = record { holds = λ v p. Holds-after (m v) _ (h.holds v p) k }

  pub Keeps-then :
      {A B : Type 0} {m : Cmd W A} {n : Cmd W B} → Keeps P m → Keeps P n → Keeps P (m >> n)
  Keeps-then h k = Keeps-bind h λ _. k

  pub Keeps-pure : {A : Type 0} (a : A) → Keeps P (pure a)
  Keeps-pure a = record { holds = λ v p. p }

  pub Keeps-gets : {A : Type 0} (f : Volume W → A) → Keeps P (gets f)
  Keeps-gets f = record { holds = λ v p. p }

  pub Keeps-buffer : (i : ℕ) → Keeps P (buffer i)
  Keeps-buffer i = record { holds = λ v p. p }

  pub Keeps-given : {A : Type 0} (o : Option A) → Keeps P (given o)
  Keeps-given none = record { holds = λ v p. tt }
  Keeps-given (some a) = record { holds = λ v p. p }

  pub Keeps-test :
      {A : Type 0} (b : Bool) {x y : Cmd W A}
      → Keeps P x
      → Keeps P y
      → Keeps P (elim b [ true ↦ x | false ↦ y ])
  Keeps-test true h k = h
  Keeps-test false h k = k

  pub Keeps-match :
      {A B : Type 0} (o : Option A) {x : Cmd W B} {f : A → Cmd W B}
      → Keeps P x
      → ((a : A) → Keeps P (f a))
      → Keeps P (elim o [ none ↦ x | some a ↦ f a ])
  Keeps-match none h k = h
  Keeps-match (some a) h k = k a

  pub Keeps-or_else :
      {A B : Type 0} {m : Cmd W (Option A)} (bad : B) {f : A → Cmd W B}
      → Keeps P m
      → ((a : A) → Keeps P (f a))
      → Keeps P (or_else m bad f)
  Keeps-or_else bad h k = Keeps-bind h λ o. Keeps-match o (Keeps-pure bad) k

-- `P` does not look at the buffers or at the device.
abbrev pub IsBlind : {W : Type 0} → (Volume W → Type 0) → Type 0
IsBlind {W} P =
    (v : Volume W) (c : Guarded Cache) (w : W) → P v → P (record v { cache = c; device = w })

module _ {W : Type 0} {P : Volume W → Type 0} (blind : IsBlind P) where
  get_block_end :
      (v : Volume W)
      → P v
      → (o : Outcome ℕ Cache)
      → Holds P (elim o as (λ _. Run W ℕ) [
        | done i g ↦ ok i (record v { cache = g })
        | blocked g ↦ waits (record v { cache = g })
      ])
  get_block_end v p (done i g) = blind v g v.device p
  get_block_end v p (blocked g) = blind v g v.device p

  pub Keeps-get_block : (bno : ℕ) → Keeps P (get_block bno)
  unfolding get_block
  Keeps-get_block bno = record { holds = λ v p. get_block_end v p (bget_block bno v.cache) }

  pub Keeps-put_buffer : (i : ℕ) (b : Buffer) → Keeps P (put_buffer i b)
  Keeps-put_buffer i b = record { holds = λ v p. blind v _ v.device p }

  pub Keeps-mark_dirty : (i : ℕ) → Keeps P (mark_dirty i)
  Keeps-mark_dirty i = record { holds = λ v p. blind v _ v.device p }

  module _ (dev : BlockDevice W) where
    pub Keeps-write_sectors :
        (sector count : ℕ) (m : Memory) → Keeps P (write_sectors dev sector count m)
    unfolding write_sectors
    Keeps-write_sectors sector count m = record { holds = λ v p. blind v v.cache _ p }

    Keeps-read_sectors : (sector count : ℕ) → Keeps P (read_sectors dev sector count)
    unfolding read_sectors
    Keeps-read_sectors sector count = record { holds = λ v p. blind v v.cache _ p }

    Keeps-fill_block : (bno bb : ℕ) → Keeps P (fill_block dev bno bb)
    unfolding fill_block
    Keeps-fill_block bno bb = Keeps-bind (Keeps-gets (sector_of dev bno)) λ sector.
        Keeps-bind (Keeps-read_sectors sector 8) λ o. Keeps-match o (Keeps-pure none) λ m.
          Keeps-bind (Keeps-buffer bb)
            λ b. Keeps-then (Keeps-put_buffer bb (filled m b)) (Keeps-pure (some bb))

    pub Keeps-read_block : (bno : ℕ) → Keeps P (read_block dev bno)
    unfolding read_block
    Keeps-read_block bno = Keeps-bind (Keeps-get_block bno) λ bb. Keeps-bind (Keeps-buffer bb) λ b.
        Keeps-test (b.b_state == 1) (Keeps-pure (some bb)) (
          Keeps-test (b.b_state == 2)
            (Keeps-bind (Keeps-gets (sector_of dev bno)) λ sector.
              Keeps-bind (Keeps-write_sectors sector 8 b.bytes)
                λ n. Keeps-test (is_pos32 n) (Keeps-fill_block bno bb) (Keeps-pure none))
            (Keeps-fill_block bno bb))

    pub Keeps-follow : (bno at : ℕ) → Keeps P (follow dev bno at)
    unfolding follow
    Keeps-follow bno at =
        Keeps-or_else none (Keeps-read_block bno)
          λ bb. Keeps-bind (Keeps-buffer bb) λ b. Keeps-pure (some (word b.bytes at))

    Keeps-last : (bno at : ℕ) → Keeps P (or_else (follow dev bno at) minus_one pure)
    Keeps-last bno at = Keeps-or_else minus_one (Keeps-follow bno at) Keeps-pure

    pub Keeps-iget_bno : (node : Inode) (index : ℕ) → Keeps P (iget_bno dev node index)
    unfolding iget_bno
    Keeps-iget_bno node index = Keeps-test (ltb index direct) (Keeps-pure (node.i_block index)) (
        Keeps-test (ltb index single) (Keeps-last _ _) (
          Keeps-test (ltb index double)
            (Keeps-or_else minus_one (Keeps-follow _ _) λ a. Keeps-last a _)
            (Keeps-or_else minus_one (Keeps-follow _ _)
              λ a. Keeps-or_else minus_one (Keeps-follow a _) λ b. Keeps-last b _)))
