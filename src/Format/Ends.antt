-- ===== src/Format/Ends.antt =====
-- The loop of kernel/src/lib/format.c ends: each directive takes a character at least.
use elysium_os.Base.{ℕ, ◌<◌, length}
use elysium_os.Format.Convert.{DirectiveStep, finished, invalid, printed}
use elysium_os.Format.Left.{Left}

-- A step leaves a format shorter than n.
abbrev Shorter : ℕ → DirectiveStep → Type 0
Shorter n finished = Unit
Shorter n (invalid args) = Unit
Shorter n (printed out fmt args) = length fmt < n
