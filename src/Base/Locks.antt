-- ===== src/Base/Locks.antt =====
-- `std::sync::RwLock`, which the container and the store keep their data behind.
use mathlib.Core.Bool.{Bool, false}

-- A lock is poisoned by a panic in a thread that holds it for writing.
pub record RwLock (A : Type 0) : Type 0 where
  pub poisoned : Bool
  pub held : A

abbrev pub unpoisoned : {A : Type 0} → A → RwLock A
unpoisoned a = record { poisoned = false; held = a }
