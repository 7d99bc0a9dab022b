-- ===== src/Base/Results.antt =====
-- Results of functions that return an int: an answer, or a negated error number.
pub data Errno : Type 0 where
  emfile ebadf enoent eexist enotdir eisdir einval enotsup efault erange erofs : Errno

pub data Result {ℓ} (A : Type ℓ) : Type ℓ where
  done : A → Result A
  failed : Errno → Result A
