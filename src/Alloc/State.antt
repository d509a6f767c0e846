-- ===== src/Alloc/State.antt =====
-- The state that the allocators of kext/ext2_alloc.c share: the counters of struct m_ext2fs and of
-- its superblock, the group descriptors, the cluster summaries, the buffers of the bitmaps, and the
-- mutex `um_lock`. A command runs on it, and ends in a panic or in a lock error where the code would.
use ext2fs.Base.{
  ℕ, ◌+◌, ◌-◌, ◌%◌, ◌^◌, Bool, true, false, Option, none, some, List, ◌==◌, if◌then◌else◌,
}
use ext2fs.Base.Int.{ℤ}

-- struct ext2_gd
pub record Group : Type 0 where
  pub b_bitmap : ℕ
  pub i_bitmap : ℕ
  pub i_tables : ℕ
  pub nbfree : ℕ
  pub nifree : ℕ
  pub ndirs : ℕ

-- struct csum
pub record Csum : Type 0 where
  pub init : Bool
  pub sum : List ℤ

-- `disk` is the buffer cache: what a read of a device block gives.
pub record Fs : Type 0 where
  pub locked : Bool
  pub fbcount : ℕ
  pub ficount : ℕ
  pub total_dir : ℕ
  pub fmod : Bool
  pub gd : ℕ → Group
  pub contigdirs : ℕ → ℕ
  pub clustersum : ℕ → Csum
  pub maxcluster : ℕ → ℕ
  pub disk : ℕ → List ℕ

-- A table with one entry changed.
abbrev pub update {ℓ} : {A : Type ℓ} → (ℕ → A) → ℕ → A → ℕ → A
update f k v j = if j == k then v else f j

-- `x--` and `x++` on the unsigned counters.
abbrev pub dec16 : ℕ → ℕ
dec16 x = (x + 2 ^ 16 - 1) % 2 ^ 16

abbrev pub inc16 : ℕ → ℕ
inc16 x = (x + 1) % 2 ^ 16

abbrev pub dec32 : ℕ → ℕ
dec32 x = (x + 2 ^ 32 - 1) % 2 ^ 32

abbrev pub inc32 : ℕ → ℕ
inc32 x = (x + 1) % 2 ^ 32

-- `lock_error` is a mutex that is taken twice or released while it is not held.
pub data Run {ℓ} (A : Type ℓ) : Type ℓ where
  done : A → Fs → Run A
  panic : Run A
  lock_error : Run A

abbrev pub Cmd : Type 0 → Type 0
Cmd A = Fs → Run A

abbrev pub pure : {A : Type 0} → A → Cmd A
pure = done

abbrev pub get : Cmd Fs
get fs = done fs fs

abbrev pub modify : (Fs → Fs) → Cmd (Unit {0})
modify f fs = done tt (f fs)

module _ {A B : Type 0} where
  abbrev pub and_then : Run A → (A → Cmd B) → Run B
  and_then (done a fs) k = k a fs
  and_then panic k = panic
  and_then lock_error k = lock_error

  infixl 5 ◌>>=◌ ◌>>◌
  abbrev pub ◌>>=◌ : Cmd A → (A → Cmd B) → Cmd B
  m >>= k = λ fs. and_then (m fs) k

  abbrev pub ◌>>◌ : Cmd A → Cmd B → Cmd B
  m >> n = m >>= λ _. n

-- EXT2_LOCK and EXT2_UNLOCK
unfoldable pub lock : Cmd (Unit {0})
lock fs = if fs.locked then lock_error else done tt (record fs { locked = true })

unfoldable pub unlock : Cmd (Unit {0})
unlock fs = if fs.locked then done tt (record fs { locked = false }) else lock_error

-- What the kernel does for the file system: whether a read of a device block fails, and what other
-- threads do to the shared state while this one waits for a buffer.
pub record Env : Type 0 where
  pub read_fails : ℕ → Bool
  pub others : Fs → Fs

-- `buf_meta_bread`, which may block, and `buf_bdwrite`.
module _ (env : Env) where
  unfoldable pub bread : ℕ → Cmd (Option (List ℕ))
  bread blk fs =
      done (if env.read_fails blk then none else some ((env.others fs).disk blk)) (env.others fs)

unfoldable pub bdwrite : ℕ → List ℕ → Cmd (Unit {0})
bdwrite blk map fs = done tt (record fs { disk = update fs.disk blk map })
