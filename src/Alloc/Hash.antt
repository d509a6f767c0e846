-- ===== src/Alloc/Hash.antt =====
-- `ext2_hashalloc` of kext/ext2_alloc.c: the order in which the groups are tried.
pub mod Every
use ext2fs.Base.{ℕ, zero, suc, ◌+◌, ◌-◌, ◌*◌, ◌%◌, Bool, true, false, ltb, leb, ◌==◌, if◌then◌else◌}
use ext2fs.Alloc.State.{Fs, Run, done, Cmd, and_then, pure, get, ◌>>=◌, ◌>>◌}

-- `if (result) return (result);` before what follows.
abbrev pub or_else : Cmd ℕ → ℕ → Cmd ℕ
or_else rest result = elim (result == 0) [ true ↦ rest | false ↦ pure result ]

-- `gcount` is the number of groups, and `alloc cg pref` the call of the allocator that is passed
-- in; a result of 0 is a failure.
module _ (gcount : ℕ) (alloc : ℕ → ℕ → Cmd ℕ) where
  -- `cg += i`, brought back below `gcount`.
  abbrev pub hop : ℕ → ℕ → ℕ
  hop cg i = if leb gcount (cg + i) then cg + i - gcount else cg + i

  -- The quadratic rehash. The fuel bounds the rounds; `i` doubles in each.
  unfoldable pub rehash : ℕ → ℕ → ℕ → Cmd ℕ
  rehash zero i cg = pure 0
  rehash (suc f) i cg = elim (ltb i gcount) [
    | false ↦ pure 0
    | true ↦ alloc (hop cg i) 0 >>= or_else (rehash f (i * 2) (hop cg i))
  ]

  -- The brute force search, with `n` rounds left.
  unfoldable pub brute : ℕ → ℕ → Cmd ℕ
  brute zero cg = pure 0
  brute (suc n) cg = alloc cg 0 >>= or_else (brute n (if cg + 1 == gcount then 0 else cg + 1))

  -- The part after the preferred group.
  unfoldable pub rest_of : ℕ → Cmd ℕ
  unfolding rehash brute
  rest_of cg = rehash gcount 1 cg >>= or_else (brute (gcount - 2) ((cg + 2) % gcount))

  unfoldable pub hashalloc : ℕ → ℕ → Cmd ℕ
  unfolding rest_of
  hashalloc cg pref = alloc cg pref >>= or_else (rest_of cg)
