-- ===== src/Storage/Locks.antt =====
-- storage/locks.c: the table of sentence locks.
pub mod Exclusive
use distributed_document_sys.Base.{
  update, not, Option, str_eq, Bool, ℕ, find_first, false, ◌&&◌, some, true, CString, none, ◌==◌,
}

abbrev pub max_locks : ℕ
max_locks = 100

-- A pointer to a sentence is its address.
pub record LockInfo : Type 0 where
  pub active : Bool
  pub filename : CString
  pub sentence_ptr : ℕ
  pub sock_fd : ℕ

-- `global_locks`
abbrev pub Locks : Type 0
Locks = ℕ → LockInfo

unfoldable pub init_locks : Locks → Locks
init_locks locks i = record (locks i) { active = false }

abbrev pub is_lock : CString → ℕ → LockInfo → Bool
is_lock f s l = l.active && (str_eq l.filename f && l.sentence_ptr == s)

unfoldable pub find_lock : CString → ℕ → Locks → Option ℕ
find_lock f s locks = find_first (λ i. is_lock f s (locks i)) max_locks 0

-- The results 0, 1 and -1.
pub data LockResult : Type 0 where
  conflict created full : LockResult

unfoldable pub create_lock : CString → ℕ → ℕ → Locks → LockResult × Locks
create_lock f s sock locks = elim (find_lock f s locks) [
  | some _ ↦ (conflict, locks)
  | none ↦ elim (find_first (λ i. not (locks i).active) max_locks 0) [
    | none ↦ (full, locks)
    | some i ↦ (
      created,
      update locks i (record { active = true; filename = f; sentence_ptr = s; sock_fd = sock }),
    )
  ]
]

unfoldable pub release_lock : CString → ℕ → Locks → Locks
release_lock f s locks = elim (find_lock f s locks) [
  | none ↦ locks
  | some i ↦ update locks i (record (locks i) { active = false })
]
