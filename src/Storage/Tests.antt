-- ===== src/Storage/Tests.antt =====
-- A concrete text and a concrete lock table, and the theorems applied to them.
pub mod Checkpoints
pub mod Files
pub mod Start
pub mod Edits
pub mod Sessions
pub mod Rounds
use distributed_document_sys.Storage.Locks.Exclusive.{
  Outcome, release_lock-IsExclusive, IsExclusive, create_lock-IsExclusive, init_locks-IsExclusive,
  release_lock_lem, create_lock-Outcome,
}
use distributed_document_sys.Storage.Document.{
  classify, sentence, strdup, print_delimiter, parse_loop, flush_list_to_file, print_words,
  parse_file_to_list, Sentence, add_word,
}
use distributed_document_sys.Storage.Document.RoundTrip.{IsDocument, parse-flush-parse, parse-flush}
use distributed_document_sys.Storage.Locks.{
  Locks, init_locks, conflict, find_lock, release_lock, create_lock,
}
use distributed_document_sys.Base.{
  All, strcmp, ℕ, arith, codes, List, [], ◌∷◌, find_first, ◌≢◌, true, none, CString, ◌⊎◌, ◌≡◌, refl,
  ◌<◌,
}

abbrev text : List ℕ
text = codes "Hello world. How are you?  Fine"

abbrev document : List Sentence
document =
    sentence (codes "Hello" ∷ codes "world" ∷ []) b'.'
    ∷ sentence (codes "How" ∷ codes "are" ∷ codes "you" ∷ []) b'?'
    ∷ sentence (codes "Fine" ∷ []) b' '
    ∷ []

program : Unit {0}
unfolding parse_loop flush_list_to_file print_words print_delimiter add_word strdup classify
    init_locks strcmp find_lock find_first create_lock
program = tt

text_parses : parse_file_to_list text ≡ document
unfolding program
text_parses = refl

-- The two blanks become one.
document_prints : flush_list_to_file document ≡ codes "Hello world. How are you? Fine"
unfolding program
document_prints = refl

text_has_no_nul : All (λ c. 0 < c) text
text_has_no_nul = ground arith

document-IsDocument : IsDocument document
unfolding program
document-IsDocument = ground arith

parse-flush_example : parse_file_to_list (flush_list_to_file document) ≡ document
parse-flush_example = parse-flush document document-IsDocument

abbrev notes : CString
notes = codes "notes.txt"

abbrev unlocked : Locks
unlocked = init_locks (λ i. record { active = true; filename = []; sentence_ptr = 0; sock_fd = 0 })

unlocked-IsExclusive : IsExclusive unlocked
unlocked-IsExclusive = init_locks-IsExclusive _

-- Socket 4 holds the sentence at address 64.
abbrev locked : Locks
locked = (create_lock notes 64 4 unlocked).1

locked-IsExclusive : IsExclusive locked
locked-IsExclusive = create_lock-IsExclusive notes 64 4 unlocked unlocked-IsExclusive

create_lock-Outcome_example :
    let r = create_lock notes 64 9 locked in Outcome notes 64 9 locked r.0 r.1
create_lock-Outcome_example = create_lock-Outcome notes 64 9 locked locked-IsExclusive

-- Another client is refused.
conflict_example : (create_lock notes 64 9 locked).0 ≡ conflict
unfolding program
conflict_example = refl
