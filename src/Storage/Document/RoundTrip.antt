-- ===== src/Storage/Document/RoundTrip.antt =====
-- Writing a document and reading it back.
use mathlib.Core.List.{append_assoc, append-nil}
use distributed_document_sys.Base.{
  All, All-append, sym, true, false, inl, inr, ◌∙◌, ap, arith, ℕ, List, suc, ◌∷◌, ◌≢◌, [], ◌++◌,
  CString, zero, refl, ◌<◌, ◌⊎◌, ◌≡◌,
}
use distributed_document_sys.Storage.Document.{
  sentence, print_delimiter, flush_list_to_file, print_words, parse_file_to_list, classify, strdup,
  Sentence, blank, parse_loop, add_word, letter, ByteClass, newline, stop,
}

-- A byte that can stand in a word.
abbrev pub IsLetter : ℕ → Type 0
IsLetter c = (classify c ≡ letter) × (0 < c)

abbrev pub IsWord : CString → Type 0
IsWord w = (w ≢ []) × All IsLetter w

-- A delimiter that ends a sentence which is not the last.
abbrev pub IsEnd : ℕ → Type 0
IsEnd c = (classify c ≡ stop) ⊎ (c ≡ 10)

-- What parsing gives: words of letters, a delimiter after each sentence, none after the last.
abbrev pub IsDocument : List Sentence → Type 0
IsDocument [] = ⊥
IsDocument (s ∷ []) = All IsWord s.words × (s.delimiter ≡ b' ')
IsDocument (s ∷ t ∷ rest) = All IsWord s.words × IsEnd s.delimiter × IsDocument (t ∷ rest)

strdup-letters : (w : List ℕ) → All IsLetter w → strdup w ≡ w
unfolding strdup
strdup-letters [] h = refl
strdup-letters (zero ∷ cs) h = absurd (omega (arith, h.0.1))
strdup-letters (suc c ∷ cs) h = ap (◌∷◌ (suc c)) (strdup-letters cs h.1)

add_word-IsWord :
    (word : List ℕ) (words : List CString)
    → All IsLetter word
    → All IsWord words
    → All IsWord (add_word word words)
unfolding add_word
add_word-IsWord [] words hw h = h
add_word-IsWord (c ∷ cs) words hw h =
    All-append IsWord words (strdup (c ∷ cs) ∷ []) h
      (rw (strdup-letters (c ∷ cs) hw) (((λ e. cc), hw), tt))

IsDocument-cons :
    (s : Sentence) (rest : List Sentence)
    → All IsWord s.words
    → IsEnd s.delimiter
    → IsDocument rest
    → IsDocument (s ∷ rest)
IsDocument-cons s [] w e d = absurd d
IsDocument-cons s (t ∷ rest) w e d = (w, e, d)

data Class (c : ℕ) : Type 0 where
  is_a : (k : ByteClass) → classify c ≡ k → Class c

Class-cases : (c : ℕ) → Class c
Class-cases c = is_a (classify c) refl

-- Whatever a file without NUL bytes holds, parsing it gives a document.
parse_loop-IsDocument :
    (content word : List ℕ) (words : List CString)
    → All (λ c. 0 < c) content
    → All IsLetter word
    → All IsWord words
    → IsDocument (parse_loop content word words)
unfolding parse_loop
parse_loop-IsDocument [] word words hc hw h = (add_word-IsWord word words hw h, refl)
parse_loop-IsDocument (c ∷ cs) word words hc hw h =
    let added = add_word-IsWord word words hw h in
    elim (Class-cases c) [
      | is_a stop e ↦
          rw (e, parse_loop)
            (IsDocument-cons _ _ added (inl e) (parse_loop-IsDocument cs [] [] hc.1 tt tt))
      | is_a newline e ↦
          rw (e, parse_loop)
            (IsDocument-cons _ _ added (inr refl) (parse_loop-IsDocument cs [] [] hc.1 tt tt))
      | is_a blank e ↦
          rw (e, parse_loop) (parse_loop-IsDocument cs [] (add_word word words) hc.1 tt added)
      | is_a letter e ↦
          rw (e, parse_loop)
            (parse_loop-IsDocument cs (word ++ c ∷ []) words hc.1
              (All-append IsLetter word (c ∷ []) hw ((e, hc.0), tt)) h)
    ]

-- Letters go to the word buffer.
parse_loop-letters :
    (w rest acc : List ℕ) (words : List CString)
    → All IsLetter w
    → parse_loop (w ++ rest) acc words ≡ parse_loop rest (acc ++ w) words
unfolding parse_loop
parse_loop-letters [] rest acc words h = rw (append-nil acc)
parse_loop-letters (c ∷ w) rest acc words h =
    rw (h.0.0, parse_loop)
      (parse_loop-letters w rest (acc ++ c ∷ []) words h.1
        ∙ ap (λ b. parse_loop rest b words) (append_assoc acc (c ∷ []) w))

-- The rest of a file that ends the word before it.
abbrev EndsWord : List ℕ → Type 0
EndsWord rest =
    (word : List ℕ) (words : List CString)
    → parse_loop rest word words ≡ parse_loop rest [] (add_word word words)

add_word_letters :
    (w : CString) (words : List CString) → IsWord w → add_word w words ≡ words ++ w ∷ []
unfolding add_word
add_word_letters [] words h = absurd (h.0 refl)
add_word_letters (c ∷ cs) words h = ap (λ v. words ++ v ∷ []) (strdup-letters (c ∷ cs) h.1)

parse_loop-print_words :
    (ws pre : List CString) (rest : List ℕ)
    → EndsWord rest
    → All IsWord ws
    → parse_loop (print_words ws ++ rest) [] pre ≡ parse_loop rest [] (pre ++ ws)
unfolding print_words
parse_loop-print_words [] pre rest ends h = rw (append-nil pre)
parse_loop-print_words (w ∷ []) pre rest ends h =
    parse_loop-letters w rest [] pre h.0.1
    ∙ ends w pre
    ∙ ap (parse_loop rest []) (add_word_letters w pre h.0)
parse_loop-print_words (w ∷ v ∷ ws) pre rest ends h =
    ap (λ l. parse_loop l [] pre) (append_assoc w (b' ' ∷ print_words (v ∷ ws)) rest)
    ∙ parse_loop-letters w (b' ' ∷ (print_words (v ∷ ws) ++ rest)) [] pre h.0.1
    ∙ blank_ends w pre
    ∙ ap (parse_loop (print_words (v ∷ ws) ++ rest) []) (add_word_letters w pre h.0)
    ∙ parse_loop-print_words (v ∷ ws) (pre ++ w ∷ []) rest ends h.1
    ∙ ap (parse_loop rest []) (append_assoc pre (w ∷ []) (v ∷ ws))
  where
    blank_ends :
        (word : List ℕ) (words : List CString)
        → parse_loop (b' ' ∷ (print_words (v ∷ ws) ++ rest)) word words
          ≡ parse_loop (print_words (v ∷ ws) ++ rest) [] (add_word word words)
    blank_ends word words = unfold parse_loop classify in refl

-- A printed delimiter ends the sentence, whatever is pending.
parse_loop-print_delimiter :
    (d : ℕ) (rest word : List ℕ) (words : List CString)
    → IsEnd d
    → parse_loop (print_delimiter d true ++ rest) word words
      ≡ sentence (add_word word words) d ∷ parse_loop rest [] []
parse_loop-print_delimiter d rest word words (inl e) =
    let printed : print_delimiter d true ≡ d ∷ b' ' ∷ [] =
      unfold print_delimiter classify in ground arith in
    rw printed (unfold parse_loop in rw (e, parse_loop) (unfold classify add_word in refl))
parse_loop-print_delimiter d rest word words (inr e) =
    rw e (unfold parse_loop print_delimiter classify in refl)

print_delimiter-EndsWord :
    (d : ℕ) (rest : List ℕ) → IsEnd d → EndsWord (print_delimiter d true ++ rest)
unfolding add_word
print_delimiter-EndsWord d rest e word words =
    parse_loop-print_delimiter d rest word words e
    ∙ sym (parse_loop-print_delimiter d rest [] (add_word word words) e)

-- Reading back what was written for a document (words of letters, a delimiter after each
-- sentence, none after the last) gives the document again.
pub parse-flush : (d : List Sentence) → IsDocument d → parse_file_to_list (flush_list_to_file d) ≡ d
unfolding flush_list_to_file add_word
parse-flush [] h = absurd h
parse-flush (s ∷ []) h =
    ap (λ d. parse_file_to_list (print_words s.words ++ (print_delimiter d false ++ []))) h.1
    ∙ unfold print_delimiter in
      parse_loop-print_words s.words [] [] (λ word words. unfold parse_loop add_word in refl) h.0
      ∙ unfold parse_loop add_word in λ i. sentence s.words (sym h.1 i) ∷ []
parse-flush (s ∷ t ∷ rest) h =
    let more = flush_list_to_file (t ∷ rest) in
    parse_loop-print_words s.words [] (print_delimiter s.delimiter true ++ more)
      (print_delimiter-EndsWord s.delimiter more h.1) h.0
    ∙ parse_loop-print_delimiter s.delimiter more [] s.words h.1
    ∙ ap (◌∷◌ s) (parse-flush (t ∷ rest) h.2)

-- For a file without NUL bytes, reading, writing and reading again gives the document of the
-- first reading.
pub parse-flush-parse :
    (content : List ℕ)
    → All (λ c. 0 < c) content
    → parse_file_to_list (flush_list_to_file (parse_file_to_list content))
      ≡ parse_file_to_list content
parse-flush-parse content h =
    parse-flush (parse_file_to_list content) (parse_loop-IsDocument content [] [] h tt tt)
