-- ===== src/Storage/Document.antt =====
-- storage/document.c: a document as a list of sentences, read from a file and written back.
pub mod RoundTrip
use distributed_document_sys.Base.{
  not, leb, Bool, ℕ, List, suc, ◌&&◌, CString, ◌++◌, ◌==◌, [], false, if◌then◌else◌, true, ◌||◌,
  ◌∷◌, zero,
}

-- A `SentenceNode` without its links: its words and the delimiter that ends it.
pub record Sentence : Type 0 where
  pub words : List CString
  pub delimiter : ℕ

abbrev pub sentence : List CString → ℕ → Sentence
sentence words delimiter = record { words = words; delimiter = delimiter }

-- What the loop of `parse_file_to_list` makes of a byte.
pub data ByteClass : Type 0 where
  stop newline blank letter : ByteClass

-- `isspace` in the "C" locale
abbrev pub isspace : ℕ → Bool
isspace c = c == b' ' || (leb 9 c && leb c 13)

-- `c == '.' || c == '!' || c == '?'`
abbrev pub is_stop : ℕ → Bool
is_stop c = c == b'.' || c == b'!' || c == b'?'

unfoldable pub classify : ℕ → ByteClass
classify c =
    if is_stop c then stop else if isspace c then (if c == 10 then newline else blank) else letter

-- `strdup`: the bytes up to the first NUL.
unfoldable pub strdup : List ℕ → CString
strdup [] = []
strdup (zero ∷ cs) = []
strdup (suc c ∷ cs) = suc c ∷ strdup cs

-- `if (word_idx > 0)`: the buffered word is appended to the sentence.
unfoldable pub add_word : List ℕ → List CString → List CString
add_word [] words = words
add_word (c ∷ cs) words = words ++ strdup (c ∷ cs) ∷ []

-- The loop over the bytes, with `word_buffer` and the words of the current sentence. After the last
-- byte the pending word is added, and the last sentence keeps its delimiter ' '.
unfoldable pub parse_loop : List ℕ → List ℕ → List CString → List Sentence
parse_loop [] word words = sentence (add_word word words) b' ' ∷ []
parse_loop (c ∷ cs) word words = elim (classify c) [
  | stop ↦ sentence (add_word word words) c ∷ parse_loop cs [] []
  | newline ↦ sentence (add_word word words) 10 ∷ parse_loop cs [] []
  | blank ↦ parse_loop cs [] (add_word word words)
  | letter ↦ parse_loop cs (word ++ c ∷ []) words
]

abbrev pub parse_file_to_list : List ℕ → List Sentence
parse_file_to_list content = parse_loop content [] []

-- The inner loop of `flush_list_to_file`.
unfoldable pub print_words : List CString → List ℕ
print_words [] = []
print_words (w ∷ []) = w
print_words (w ∷ v ∷ ws) = w ++ b' ' ∷ print_words (v ∷ ws)

-- The delimiter; `more` is `next != NULL`.
unfoldable pub print_delimiter : ℕ → Bool → List ℕ
print_delimiter d more =
    if d == 10 then 10 ∷ [] else if not (d == b' ') || more then d ∷ b' ' ∷ [] else []

abbrev pub has_more {ℓ} : {A : Type ℓ} → List A → Bool
has_more [] = false
has_more (x ∷ xs) = true

unfoldable pub flush_list_to_file : List Sentence → List ℕ
flush_list_to_file [] = []
flush_list_to_file (s ∷ rest) =
    print_words s.words ++ (print_delimiter s.delimiter (has_more rest) ++ flush_list_to_file rest)
