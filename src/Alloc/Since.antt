-- ===== src/Alloc/Since.antt =====
-- The states in which `ext2_alloccg` and `ext2_nodealloccg` come to choose a bit: a call of
-- `ext2_hashalloc` reaches them from the state in which it began, each through one more wait for a
-- bitmap.
use ext2fs.Base.{true, false}
use ext2fs.Alloc.State.{Fs, Env}

-- `waited` is the release of the mutex and the read, while which other threads run, and `failed` the
-- mutex taken again where nothing was found in the group.
pub data Since (env : Env) (start : Fs) : Fs → Type 0 where
  here : Since env start start
  waited :
      {fs : Fs} → Since env start fs → Since env start (env.others (record fs { locked = false }))
  failed : {fs : Fs} → Since env start fs → Since env start (record fs { locked = true })
