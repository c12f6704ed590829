-- ===== src/SmallPayload.antt =====
-- The payload container with inline storage: src/small_payload.rs.
pub mod Slices
use sedsprintf_rs.Prelude.{
  ℕ, zero, suc, ◌+◌, ◌-◌, ◌≤◌, Bool, true, false, ◌&&◌, Option, none, some, List, [], ◌∷◌, ◌++◌,
  map, length, take, replicate, leb, if◌then◌else◌,
}

-- A cell of the inline buffer is `none` while it is uninitialized (`MaybeUninit`).
pub data SmallPayload : Type 0 where
  inline : ℕ → List (Option ℕ) → SmallPayload
  heap : List ℕ → SmallPayload

-- Reading cells as initialized bytes; `none` where one is not, which is undefined behaviour.
unfoldable pub initialized : List (Option ℕ) → Option (List ℕ)
initialized [] = some []
initialized (none ∷ cells) = none
initialized (some b ∷ cells) = elim (initialized cells) [
  | none ↦ none
  | some bytes ↦ some (b ∷ bytes)
]

-- `InlineBuf::from_slice` at a capacity: the buffer and the length; `none` where an assertion fails.
unfoldable pub from_slice : ℕ → List ℕ → Option (List (Option ℕ) × ℕ)
from_slice n bytes =
    if leb (length bytes) n && leb (length bytes) 255
    then some (map some bytes ++ replicate (n - length bytes) none, length bytes)
    else none

-- `InlineBuf::as_slice`: undefined outside the buffer and on uninitialized cells.
unfoldable pub buf_as_slice : List (Option ℕ) → ℕ → Option (List ℕ)
unfolding initialized
buf_as_slice cells len = if leb len (length cells) then initialized (take len cells) else none

-- The container of the inline buffer and its length.
abbrev pub stored_inline : Option (List (Option ℕ) × ℕ) → Option SmallPayload
stored_inline none = none
stored_inline (some (cells, len)) = some (inline len cells)

-- `SmallPayload::<INLINE>::new`; `none` is a panic.
unfoldable pub new : ℕ → List ℕ → Option SmallPayload
unfolding from_slice
new inline_cap bytes =
    if leb (length bytes) inline_cap
    then stored_inline (from_slice inline_cap bytes)
    else some (heap bytes)

unfoldable pub as_slice : SmallPayload → Option (List ℕ)
unfolding buf_as_slice
as_slice (inline len cells) = buf_as_slice cells len
as_slice (heap bytes) = some bytes

unfoldable pub to_arc : SmallPayload → Option (List ℕ)
unfolding buf_as_slice
to_arc (inline len cells) = buf_as_slice cells len
to_arc (heap bytes) = some bytes

unfoldable pub len : SmallPayload → ℕ
len (inline n cells) = n
len (heap bytes) = length bytes

unfoldable pub is_inline : SmallPayload → Bool
is_inline (inline n cells) = true
is_inline (heap bytes) = false

-- `size_of::<Arc<[u8]>>()` is the first argument.
unfoldable pub byte_cost : ℕ → SmallPayload → ℕ
byte_cost arc (inline n cells) = n
byte_cost arc (heap bytes) = length bytes + arc
