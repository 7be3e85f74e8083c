-- ===== src/Buffer/Buckets.antt =====
-- The buckets: their sizes, and which buffers they hold.
use mango_os.Base.{
  ℕ, ◌<◌, ◌≤◌, ◌≡◌, refl, ◌⊎◌, inl, inr, true, false, List, [], ◌∷◌, ltb, leb, if◌then◌else◌, arith,
  mem, length, Bool-cases,
}
use mango_os.Ipc.{mutex_lock, mutex_unlock}
use mango_os.Ipc.Guarded.{enters, with_lock_cases, Guarded, Outcome, done, blocked, with_lock}
use mango_os.Buffer.{
  Cache, hash_bh, search, Found, hit, miss, new_buffer, link_buffer, bget_block, reuse, touch,
  take_over, first_of, is_block,
}

-- A bucket counts its buffers, at most a hundred, and holds the blocks with its hash only.
pub record IsValid (c : Cache) : Type 0 where
  pub counted : (h : ℕ) → c.sizes h ≡ length (c.buckets h)
  pub bounded : (h : ℕ) → c.sizes h ≤ 100
  pub hashed :
      (h i : ℕ) → mem i (c.buckets h) ≡ true → (hash_bh (c.buffers i).block_no ≡ h) × (i < c.fresh)

-- The search ends at a buffer of the list; a hit holds the block.
abbrev pub Within : Cache → ℕ → List ℕ → Found → Type 0
Within c bno js (hit i) = (mem i js ≡ true) × ((c.buffers i).block_no ≡ bno)
Within c bno js (miss e b) = (mem e js ≡ true) × (mem b js ≡ true)

search-Within :
    (c : Cache) (bno e b : ℕ) (is js : List ℕ)
    → mem e js ≡ true
    → mem b js ≡ true
    → ((i : ℕ) → mem i is ≡ true → mem i js ≡ true)
    → Within c bno js (search c bno is e b)
unfolding search
search-Within c bno e b [] js p q sub = (p, q)
search-Within c bno e b (i ∷ is) js p q sub =
    let here : mem i js ≡ true = sub i (ground arith) in
    let e' = if ltb (c.buffers i).exp_time (c.buffers e).exp_time then i else e in
    elim (Bool-cases (is_block c bno i)) [
      | inl found ↦ rw found (here, ground arith)
      | inr other ↦
          rw other
            (search-Within c bno e' i is js (ground arith) here (λ j m. sub j (ground arith)))
    ]

-- A buffer of a bucket takes over another block with the bucket's hash.
take_over-IsValid :
    (c : Cache) (bno e b : ℕ)
    → IsValid c
    → mem e (c.buckets (hash_bh bno)) ≡ true
    → IsValid (take_over c bno e b)
take_over-IsValid c bno e b v m = record {
  counted = v.counted;
  bounded = v.bounded;
  hashed = λ h i j. ground (arith, v.hashed h i j, v.hashed (hash_bh bno) e m);
}

touch-IsValid : (c : Cache) (i : ℕ) → IsValid c → IsValid (touch c i)
touch-IsValid c i v = record {
  counted = v.counted;
  bounded = v.bounded;
  hashed = λ h j m. ground (arith, v.hashed h j m);
}

new_buffer-IsValid : (c : Cache) (bno : ℕ) → IsValid c → IsValid (new_buffer bno c)
unfolding new_buffer
new_buffer-IsValid c bno v = record {
  counted = v.counted;
  bounded = v.bounded;
  hashed = λ h j m. ground (arith, v.hashed h j m);
}

link_buffer-IsValid :
    (c : Cache) (i bno : ℕ)
    → IsValid c
    → c.sizes (hash_bh bno) < 100
    → (c.buffers i).block_no ≡ bno
    → i < c.fresh
    → IsValid (link_buffer (hash_bh bno) i c).1
unfolding link_buffer
link_buffer-IsValid c i bno v room e known = record {
  counted = λ h. ground (arith, v.counted h);
  bounded = λ h. ground (arith, v.bounded h);
  hashed = λ h j m. ground (arith, v.hashed h j);
}

-- What `bget_block` promises however it ends: the buckets stay as they should be, and a buffer that
-- it returns stands for the block, in the block's bucket.
abbrev pub Gives : ℕ → Outcome ℕ Cache → Type 0
Gives bno (done i g) =
    IsValid g.inner
    × ((g.inner.buffers i).block_no ≡ bno)
    × (mem i (g.inner.buckets (hash_bh bno)) ≡ true)
Gives bno (blocked g) = IsValid g.inner

head-mem : (is : List ℕ) → 0 < length is → mem (first_of is) is ≡ true
head-mem [] h = absurd (omega arith)
head-mem (i ∷ is) h = ground arith

-- The end of `reuse`, by how the search ended.
pub reuse_hit :
    (bno i : ℕ) (g : Guarded Cache)
    → enters g.kernel g.mutex ≡ true
    → search g.inner bno
        (g.inner.buckets (hash_bh bno))
        (first_of (g.inner.buckets (hash_bh bno)))
        (first_of (g.inner.buckets (hash_bh bno)))
      ≡ hit i
    → reuse bno g
      ≡ done i (record {
        kernel = (mutex_lock g.kernel g.mutex).0;
        mutex = (mutex_lock g.kernel g.mutex).1;
        inner = touch g.inner i;
      })
unfolding reuse
reuse_hit bno i g e f = ground (arith, f)

reuse_miss :
    (bno x y : ℕ) (g : Guarded Cache)
    → enters g.kernel g.mutex ≡ true
    → search g.inner bno
        (g.inner.buckets (hash_bh bno))
        (first_of (g.inner.buckets (hash_bh bno)))
        (first_of (g.inner.buckets (hash_bh bno)))
      ≡ miss x y
    → (g' : Guarded Cache) × (reuse bno g ≡ done x g') × (g'.inner ≡ take_over g.inner bno x y)
unfolding reuse
reuse_miss bno x y g e f =
    let km = mutex_unlock (mutex_lock g.kernel g.mutex).0 (mutex_lock g.kernel g.mutex).1 in
    (
      record { kernel = km.0; mutex = km.1; inner = take_over g.inner bno x y },
      ground (arith, f),
      refl,
    )

reuse_blocked :
    (bno : ℕ) (g : Guarded Cache)
    → enters g.kernel g.mutex ≡ false
    → (g' : Guarded Cache) × (reuse bno g ≡ blocked g') × (g'.inner ≡ g.inner)
unfolding reuse
reuse_blocked bno g e = (
  record {
    kernel = (mutex_lock g.kernel g.mutex).0;
    mutex = (mutex_lock g.kernel g.mutex).1;
    inner = g.inner;
  },
  rw e,
  refl,
)

reuse-Gives :
    (bno : ℕ) (g : Guarded Cache)
    → IsValid g.inner
    → 100 ≤ g.inner.sizes (hash_bh bno)
    → Gives bno (reuse bno g)
reuse-Gives bno g v full = elim (Bool-cases (enters g.kernel g.mutex)) [
  | inr e ↦ let (g', f, same) = reuse_blocked bno g e in rw f (rw same v)
  | inl e ↦
      by_found e (search c bno is (first_of is) (first_of is)) refl
        (search-Within c bno (first_of is) (first_of is) is is here here (λ i m. m))
]
  where
    c : Cache
    c = g.inner

    is : List ℕ
    is = c.buckets (hash_bh bno)

    here : mem (first_of is) is ≡ true
    here = head-mem is (omega (arith, v.counted (hash_bh bno)))

    by_found :
        enters g.kernel g.mutex ≡ true
        → (r : Found) → search c bno is (first_of is) (first_of is) ≡ r
        → Within c bno is r
        → Gives bno (reuse bno g)
    by_found e (hit i) f w =
        rw (reuse_hit bno i g e f) (touch-IsValid c i v, ground (arith, w.1), w.0)
    by_found e (miss x y) f w =
        let (g', r, same) = reuse_miss bno x y g e f in
        rw r (rw same (take_over-IsValid c bno x y v w.0, ground arith, w.0))

-- `bget_block` keeps the buckets as they should be, and a buffer that it returns stands for the
-- block, in the block's bucket, whether it was found, taken over or made.
pub bget_block-Gives :
    (bno : ℕ) (g : Guarded Cache) → IsValid g.inner → Gives bno (bget_block bno g)
unfolding bget_block
bget_block-Gives bno g v = elim (Bool-cases (leb 100 (g.inner.sizes (hash_bh bno)))) [
  | inl full ↦ rw full (reuse-Gives bno g v (ground arith))
  | inr room ↦ rw room (made (ground arith) (with_lock_cases (link_buffer h i) fresh_in))
]
  where
    h : ℕ
    h = hash_bh bno

    i : ℕ
    i = g.inner.fresh

    fresh_in : Guarded Cache
    fresh_in = record g { inner = new_buffer bno g.inner }

    made :
        g.inner.sizes h < 100
        → ((g' : Guarded Cache) × (with_lock (link_buffer h i) fresh_in
              ≡ done (link_buffer h i (new_buffer bno g.inner)).0 g')
            × (g'.inner ≡ (link_buffer h i (new_buffer bno g.inner)).1))
          ⊎ ((g' : Guarded Cache) × (with_lock (link_buffer h i) fresh_in ≡ blocked g')
              × (g'.inner ≡ new_buffer bno g.inner))
        → Gives bno (with_lock (link_buffer h i) fresh_in)
    made short (inl (g', e, same)) = rw e (
        rw same (
          link_buffer-IsValid (new_buffer bno g.inner) i bno (new_buffer-IsValid g.inner bno v)
              (ground arith) (ground arith) (omega arith),
          ground arith,
          ground arith,
        ))
    made short (inr (g', e, same)) = rw e (rw same (new_buffer-IsValid g.inner bno v))
