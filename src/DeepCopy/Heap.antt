-- ===== src/DeepCopy/Heap.antt =====
-- A heap of cells, and commands that read and allocate them.
use statgate.Prelude.{ℕ, Option, none, some, ◌+◌, ◌==◌, if◌then◌else◌, ◌≡◌, ◌≤◌}

pub record Heap (C : Type 0) : Type 0 where
  -- the next free address
  pub next : ℕ
  pub cell : ℕ → Option C

-- Nothing is stored from the next free address on.
pub record IsHeap {C : Type 0} (h : Heap C) : Type 0 where
  pub free : (p : ℕ) → h.next ≤ p → h.cell p ≡ none

-- `none` is a fault: a read of an address at which there is no such object.
abbrev pub Command : Type 0 → Type 0 → Type 0
Command C A = Heap C → Option (A × Heap C)

abbrev pub bind {ℓ κ} : {A : Type ℓ} {B : Type κ} → Option A → (A → Option B) → Option B
bind none f = none
bind (some a) f = f a

module _ {C A : Type 0} where
  unfoldable pub pure : A → Command C A
  pure a h = some (a, h)

  -- The contents of a cell of one kind, which `get` takes out.
  unfoldable pub load : (C → Option A) → ℕ → Command C A
  load get p h = bind (bind (h.cell p) get) (λ a. some (a, h))

abbrev pub allocated : {C : Type 0} → C → Heap C → Heap C
allocated c h = record { next = h.next + 1; cell = λ p. if p == h.next then some c else h.cell p }

unfoldable pub alloc : {C : Type 0} → C → Command C ℕ
alloc c h = some (h.next, allocated c h)

module _ {C A B : Type 0} where
  infixl 5 ◌>>=◌
  unfoldable pub ◌>>=◌ : Command C A → (A → Command C B) → Command C B
  ◌>>=◌ m f h = bind (m h) (λ (a, h'). f a h')
