-- ===== src/Storage/Statistics.antt =====
-- storage/metadata.c: `calculate_and_send_metadata`, `handle_send_file` and `handle_stream_file`,
-- which read a file and send what they find.
pub mod Counted
use distributed_document_sys.Storage.Document.{strdup, isspace}
use distributed_document_sys.Storage.Disk.{Disk, open_read}
use distributed_document_sys.Base.{
  length, ℕ, Bool, List, CString, [], some, suc, true, if◌then◌else◌, ◌==◌, ◌∷◌, ◌+◌, ◌||◌,
  tokens_by, none, false,
}
use distributed_document_sys.Protocol.{
  UpdateMetadata, req_update_metadata, MessageType, res_error_not_found, res_ss_file_ok,
}

-- What the storage server sends on a socket.
pub data Output : Type 0 where
  header : MessageType → Output
  metadata : UpdateMetadata → Output
  bytes : List ℕ → Output
  number : ℕ → Output
  item : (tag : CString) (timestamp : ℕ) → Output

-- The loop over the bytes: `fgetc` is stored in a `char`, so that the byte 255 is taken for the end
-- of the file. The number of words, with `in_word`:
unfoldable pub count_file_words : Bool → List ℕ → ℕ
count_file_words in_word [] = 0
count_file_words in_word (c ∷ cs) = elim (c == 255) [
  | true ↦ 0
  | false ↦ elim (isspace c) [
    | true ↦ count_file_words false cs
    | false ↦ (if in_word then 0 else 1) + count_file_words true cs
  ]
]

unfoldable pub count_file_chars : List ℕ → ℕ
count_file_chars [] = 0
count_file_chars (c ∷ cs) = elim (c == 255) [ true ↦ 0 | false ↦ suc (count_file_chars cs) ]

-- `stamp` is what `stat` tells of a path: the times of modification and of access.
unfoldable pub calculate_and_send_metadata : (CString → ℕ × ℕ) → CString → Disk → List Output
calculate_and_send_metadata stamp f d = elim (open_read f d) [
  | none ↦ []
  | some content ↦
      header req_update_metadata
      ∷ metadata (record {
        filename = f;
        file_size = length content;
        word_count = count_file_words false content;
        char_count = count_file_chars content;
        last_modified = (stamp f).0;
        last_accessed = (stamp f).1;
      })
      ∷ []
]

-- `read(fd, buffer, FILE_BUFFER_SIZE)` again and again: what is sent, for one `send`.
unfoldable pub handle_send_file : CString → Disk → List Output
handle_send_file f d = elim (open_read f d) [
  | none ↦ header res_error_not_found ∷ []
  | some content ↦ header res_ss_file_ok ∷ bytes content ∷ []
]

-- The separators of `strtok_r(mem_buffer, " \n\t", &word_context)`.
abbrev pub is_blank : ℕ → Bool
is_blank c = c == b' ' || c == 10 || c == 9

-- Each word, and a blank after it.
unfoldable pub send_words : List CString → List Output
send_words [] = []
send_words (w ∷ ws) = bytes w ∷ bytes (b' ' ∷ []) ∷ send_words ws

unfoldable pub handle_stream_file : CString → Disk → List Output
handle_stream_file f d = elim (open_read f d) [
  | none ↦ header res_error_not_found ∷ []
  | some content ↦ header res_ss_file_ok ∷ send_words (tokens_by is_blank [] (strdup content))
]
