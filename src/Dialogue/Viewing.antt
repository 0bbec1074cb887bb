-- ===== src/Dialogue/Viewing.antt =====
-- VIEW: the client and the naming server together.
use distributed_document_sys.Client.Input.{is_gap, strtok}
use distributed_document_sys.NameServer.Consistent.{Succeeds}
use Prim.Native.String.{String}
use distributed_document_sys.Storage.Stdio.{print_int}
use distributed_document_sys.NameServer.State.{Server, done, FileMetadata}
use distributed_document_sys.Client.Transfer.{
  print_metadata_view, metadata_row, print_metadata_header_view, print_metadata_footer, rule_view,
  rule_info,
}
use mathlib.Core.List.{append_assoc, append-nil}
use distributed_document_sys.Client.Wire.{
  send, ◌>>◌, pure, advance, Frame, Wire, join, printf, M, heading, recv_body_lem, recv_over,
  update_self, body, recv_header_lem, returned,
}
use distributed_document_sys.NameServer.Views.{
  handle_req_view, in_view, send_full_metadata, view_item, send_items,
}
use distributed_document_sys.Protocol.{
  sent, view_hdr, view_request, res_view_hdr, max_files_in_system, req_view, Sent,
  res_view_item_long, view_item_short, Payload, MessageType, full_metadata, res_view_item_short,
}
use distributed_document_sys.Base.{
  subst, strstr, some, none, ap, sym, codes, List, Bool, ℕ, ◌++◌, true, zero, [], inr, inl, refl,
  ◌∷◌, suc, ◌≡◌, ◌∙◌, false, count_from, if◌then◌else◌, CString, Bool-cases, ◌+◌, arith,
}
use distributed_document_sys.Dialogue.{delivered, delivered_cons, frames}
use distributed_document_sys.Client.Files.{view_item_read, view_items_read, handle_view}

-- The line of a file in the list.
abbrev pub view_line : (ℕ → CString) → (flag_l : Bool) → FileMetadata → CString
view_line format_time true meta = join (
    metadata_row meta.filename meta.owner meta.file_size meta.word_count meta.char_count
    ∷ format_time meta.last_accessed
    ∷ codes " |\n"
    ∷ [])
view_line format_time false meta = join (codes "  " ∷ meta.filename ∷ codes "\n" ∷ [])

-- The lines of the catalog indices that pass a test, from i on.
unfoldable pub lines_from : (ℕ → Bool) → (ℕ → CString) → ℕ → ℕ → CString
lines_from p line_of zero i = []
lines_from p line_of (suc n) i =
    let rest = lines_from p line_of n (suc i) in if p i then line_of i ++ rest else rest

-- A step that shows a text and leaves nothing of what a socket has brought.
abbrev pub Shows : ℕ → M (Unit {0}) → Wire → CString → Type 0
Shows sock run w text =
    (w' : Wire) × (run w ≡ returned tt w')
    × (w'.printed ≡ w.printed ++ text)
    × (w'.outgoing ≡ w.outgoing)
    × (w'.incoming sock ≡ [])

module _ (format_time : ℕ → CString) (sock : ℕ) where
  -- The wire after an item.
  abbrev after_item : CString → List Frame → Payload → Wire → Wire
  after_item text rest p w = record (advance sock rest (advance sock (body p ∷ rest) w)) {
    printed = w.printed ++ text;
  }

  item_shown :
      (flag_l : Bool) (meta : FileMetadata) (n : ℕ) (type : MessageType) (rest : List Sent)
      (w : Wire) (text : CString)
      → w.incoming sock ≡ delivered sock (view_item sock flag_l meta ∷ rest)
      → ((t : MessageType) (w₂ : Wire)
          → w₂.incoming sock ≡ delivered sock rest
          → Shows sock (view_items_read format_time sock n t) w₂ text)
      → Shows sock
          (view_items_read format_time sock (suc n) type)
          w
          (view_line format_time flag_l meta ++ text)
  unfolding view_items_read view_item_read view_item send_full_metadata frames recv_over printf
      print_metadata_view
  item_shown true meta n type rest w text h k =
      let p : Payload =
        full_metadata meta.filename meta.owner meta.file_size meta.word_count meta.char_count
          meta.last_modified meta.last_accessed meta.access_list in
      let left = delivered sock rest in
      let h' : w.incoming sock ≡ heading res_view_item_long ∷ body p ∷ left =
        h ∙ delivered_cons sock res_view_item_long p rest in
      let w₁ = advance sock (body p ∷ left) w in
      let w₂ = after_item (view_line format_time true meta) left p w in
      let (w', ran, printed, outgoing, none_left) =
        k res_view_item_long w₂ (update_self w₁.incoming sock left) in
      (
        w',
        rw (recv_header_lem sock res_view_item_long (body p ∷ left) w h')
            (rw (recv_body_lem sock p left w₁ (update_self w.incoming sock (body p ∷ left))) ran),
        printed ∙ append_assoc w.printed (view_line format_time true meta) text,
        outgoing,
        none_left,
      )
  item_shown false meta n type rest w text h k =
      let p : Payload = view_item_short meta.filename in
      let left = delivered sock rest in
      let h' : w.incoming sock ≡ heading res_view_item_short ∷ body p ∷ left =
        h ∙ delivered_cons sock res_view_item_short p rest in
      let w₁ = advance sock (body p ∷ left) w in
      let w₂ = after_item (view_line format_time false meta) left p w in
      let (w', ran, printed, outgoing, none_left) =
        k res_view_item_short w₂ (update_self w₁.incoming sock left) in
      (
        w',
        rw (recv_header_lem sock res_view_item_short (body p ∷ left) w h')
            (rw (recv_body_lem sock p left w₁ (update_self w.incoming sock (body p ∷ left))) ran),
        printed ∙ append_assoc w.printed (view_line format_time false meta) text,
        outgoing,
        none_left,
      )

  items_shown :
      (flag_l : Bool) (meta : ℕ → FileMetadata) (p : ℕ → Bool) (n i : ℕ) (type : MessageType)
      (w : Wire)
      → w.incoming sock ≡ delivered sock (send_items p (λ i. view_item sock flag_l (meta i)) n i)
      → Shows sock
          (view_items_read format_time sock (count_from p n i) type)
          w
          (lines_from p (λ i. view_line format_time flag_l (meta i)) n i)
  unfolding send_items lines_from count_from view_items_read delivered
  items_shown flag_l meta p zero i type w h = (w, refl, sym (append-nil w.printed), refl, h)
  items_shown flag_l meta p (suc n) i type w h =
      let c = count_from p n (suc i) in
      let lines = lines_from p (λ i. view_line format_time flag_l (meta i)) n (suc i) in
      elim (Bool-cases (p i)) [
        | inr skipped ↦
            let none_more : 0 + c ≡ c = omega arith in
            rw (skipped, none_more) (items_shown flag_l meta p n (suc i) type w (rw skipped at h))
        | inl seen ↦
            let one_more : 1 + c ≡ suc c = omega arith in
            rw (seen, one_more)
              (item_shown flag_l (meta i) c type
                (send_items p (λ i. view_item sock flag_l (meta i)) n (suc i)) w lines
                (rw seen at h) (λ t w₂ h₂. items_shown flag_l meta p n (suc i) t w₂ h₂))
      ]

abbrev columns_view : String
columns_view =
    "| Filename             | Owner        | Size   | Words  | Chars  | Last Accessed       |\n"

-- What stands before the lines, by the flag.
abbrev pub view_title : (flag_l : Bool) → ℕ → CString
view_title true file_count = codes rule_view ++ (codes columns_view ++ codes rule_view)
view_title false file_count =
    join (codes "--- Files (" ∷ print_int file_count ∷ codes ") ---\n" ∷ [])

abbrev pub view_footer : (flag_l : Bool) → CString
view_footer true = codes rule_info
view_footer false = []

module _ (format_time : ℕ → CString) (sock : ℕ) where
  title_shown :
      (flag_l : Bool) (c : ℕ) (w : Wire)
      → (if flag_l
            then print_metadata_header_view
            else printf (codes "--- Files (" ∷ print_int c ∷ codes ") ---\n" ∷ []))
          w
        ≡ returned tt (record w { printed = w.printed ++ view_title flag_l c })
  unfolding print_metadata_header_view printf
  title_shown false c w = refl
  title_shown true c w =
      ap (λ t. returned tt (record w { printed = t }))
        (append_assoc (w.printed ++ codes rule_view) (codes columns_view) (codes rule_view)
          ∙ append_assoc w.printed (codes rule_view) (codes columns_view ++ codes rule_view))

  footer_shown :
      (flag_l : Bool) (w : Wire)
      → (if flag_l then print_metadata_footer else pure tt) w
        ≡ returned tt (record w { printed = w.printed ++ view_footer flag_l })
  unfolding print_metadata_footer printf
  footer_shown true w = refl
  footer_shown false w =
      ap (λ t. returned tt (record w { printed = t })) (sym (append-nil w.printed))

  -- `handle_view` after the count.
  abbrev list_shown : Bool → ℕ → MessageType → M (Unit {0})
  list_shown flag_l file_count t = do
    if flag_l
        then print_metadata_header_view
        else printf (codes "--- Files (" ∷ print_int file_count ∷ codes ") ---\n" ∷ [])
    view_items_read format_time sock file_count t
    if flag_l then print_metadata_footer else pure tt

  list_shown_lem :
      (flag_l : Bool) (meta : ℕ → FileMetadata) (p : ℕ → Bool) (n : ℕ) (type : MessageType)
      (w : Wire)
      → w.incoming sock ≡ delivered sock (send_items p (λ i. view_item sock flag_l (meta i)) n 0)
      → Shows sock (list_shown flag_l (count_from p n 0) type) w (
          view_title flag_l (count_from p n 0)
          ++ (lines_from p (λ i. view_line format_time flag_l (meta i)) n 0 ++ view_footer flag_l))
  list_shown_lem flag_l meta p n type w h =
      let c = count_from p n 0 in
      let title = view_title flag_l c in
      let lines = lines_from p (λ i. view_line format_time flag_l (meta i)) n 0 in
      let (w', ran, printed, outgoing, none_left) =
        items_shown format_time sock flag_l meta p n 0 type
          (record w { printed = w.printed ++ title }) h in
      (
        record w' { printed = w'.printed ++ view_footer flag_l },
        rw (title_shown flag_l c w, ran, footer_shown flag_l w') refl,
        ap (λ t. t ++ view_footer flag_l) printed
            ∙ append_assoc (w.printed ++ title) lines (view_footer flag_l)
            ∙ append_assoc w.printed title (lines ++ view_footer flag_l),
        outgoing,
        none_left,
      )

-- The word after VIEW.
abbrev pub flag_word : CString → CString
flag_word args = elim (strtok is_gap args).0 [ none ↦ [] | some word ↦ word ]

-- The client returns from VIEW, has read all that has come, and shows the catalog of `s`.
abbrev pub Views : (ℕ → CString) → ℕ → CString → Server → Wire → Type 0
Views format_time sock args s w =
    let flag_a = strstr (flag_word args) (codes "a") in
    let flag_l = strstr (flag_word args) (codes "l") in
    let p = in_view sock flag_a s in
    (w' : Wire) × (handle_view format_time sock args w ≡ returned tt w')
    × (w'.outgoing ≡ w.outgoing ++ sent sock req_view (view_request flag_a flag_l) ∷ [])
    × (w'.incoming sock ≡ [])
    × (w'.printed
        ≡ w.printed
          ++ (view_title flag_l (count_from p max_files_in_system 0)
              ++ (lines_from p (λ i. view_line format_time flag_l (s.file_catalog i))
                    max_files_in_system 0
                  ++ view_footer flag_l)))

-- A user types VIEW and its flags, and the naming server answers the request that the client
-- sends for these flags. The client then returns, has read all that the naming server has
-- sent, and shows the title, with the number of files where the long form was not asked for,
-- one line for each catalog index that passes the naming server's test, in the order of the
-- catalog, with the file's name or its metadata as the form asks, and in the long form the
-- footer.
pub handle_view-shown :
    (format_time : ℕ → CString) (sock : ℕ) (args : CString) (s s' : Server) (out : List Sent)
    (w : Wire)
    → handle_req_view sock
        (strstr (flag_word args) (codes "a"))
        (strstr (flag_word args) (codes "l"))
        s
      ≡ done s' out
    → w.incoming sock ≡ delivered sock out
    → Views format_time sock args s w
unfolding handle_view handle_req_view frames recv_over send
handle_view-shown format_time sock args s s' out w e h =
    let flag_a = strstr (flag_word args) (codes "a") in
    let flag_l = strstr (flag_word args) (codes "l") in
    let p = in_view sock flag_a s in
    let c = count_from p max_files_in_system 0 in
    let items =
      send_items p (λ i. view_item sock flag_l (s.file_catalog i)) max_files_in_system 0 in
    let rest = delivered sock items in
    let answered : out ≡ sent sock res_view_hdr (view_hdr c) ∷ items =
      subst (Succeeds (λ _ sent_out. sent_out ≡ sent sock res_view_hdr (view_hdr c) ∷ items)) e
        refl in
    let h' : w.incoming sock ≡ heading res_view_hdr ∷ body (view_hdr c) ∷ rest =
      h ∙ (ap (delivered sock) answered ∙ delivered_cons sock res_view_hdr (view_hdr c) items) in
    let asked : Wire = record w {
      outgoing = w.outgoing ++ sent sock req_view (view_request flag_a flag_l) ∷ [];
    } in
    let w₁ : Wire = advance sock (body (view_hdr c) ∷ rest) asked in
    let w₂ : Wire = advance sock rest w₁ in
    let (w', ran, printed, outgoing, none_left) =
      list_shown_lem format_time sock flag_l s.file_catalog p max_files_in_system res_view_hdr w₂
        (update_self w₁.incoming sock rest) in
    (
      w',
      rw (recv_header_lem sock res_view_hdr (body (view_hdr c) ∷ rest) asked h') (
          rw
            (recv_body_lem sock (view_hdr c) rest w₁
              (update_self w.incoming sock (body (view_hdr c) ∷ rest)))
            ran),
      outgoing,
      none_left,
      printed,
    )
