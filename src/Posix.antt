-- ===== src/Posix.antt =====
-- The error numbers of <errno.h> that src/driver.c, src/desc.c and src/path.c return, negated.
pub data Posix : Type 0 where
  eperm enoent eio ebadf eacces efault ebusy eexist enotdir eisdir einval enfile : Posix
  enametoolong enotempty edquot : Posix

pub Posix-discrete : Discrete Posix
Posix-discrete = hlevel
