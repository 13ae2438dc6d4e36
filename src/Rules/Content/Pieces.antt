-- ===== src/Rules/Content/Pieces.antt =====
-- The regular expression of a content matches the bytes that its text stands for.
use intrusion_detection.Base.{ℕ, ◌≡◌, ◌≢◌, refl, sym, ap, ◌∙◌, List, [], ◌∷◌, ◌++◌, some, arith}
use intrusion_detection.Rules.Content.{
  escape, in_text, normalize_char, normalize_from, normalize_content_to_regex,
}
use intrusion_detection.Rules.Content.Literal.{
  and_bytes, and_bytes-nil, literal_bytes, read_literals-escape,
}
use intrusion_detection.Rules.Content.Bars.{
  HexByte, hex_text, written, bytes_of, AllBytes, and_bytes-append, normalize_char-bar,
  read-hex_text, read-written,
}

-- The parts of a content's text: plain text, and bytes between bars.
pub data Piece : Type 0 where
  plain_text bar_bytes : List ℕ → Piece
  written_bytes : List HexByte → Piece

abbrev pub render : List Piece → List ℕ
render [] = []
render (plain_text t ∷ ps) = t ++ render ps
render (bar_bytes bs ∷ ps) = b'|' ∷ (hex_text bs ++ (b'|' ∷ render ps))
render (written_bytes hs ∷ ps) = b'|' ∷ written hs (b'|' ∷ render ps)

abbrev pub denoted : List Piece → List ℕ
denoted [] = []
denoted (plain_text t ∷ ps) = t ++ denoted ps
denoted (bar_bytes bs ∷ ps) = bs ++ denoted ps
denoted (written_bytes hs ∷ ps) = bytes_of hs ++ denoted ps

abbrev pub AllText : List ℕ → Type 0
AllText [] = Unit
AllText (c ∷ t) = (c ≢ b'|') × AllText t

abbrev pub ArePieces : List Piece → Type 0
ArePieces [] = Unit
ArePieces (plain_text t ∷ ps) = AllText t × ArePieces ps
ArePieces (bar_bytes bs ∷ ps) = AllBytes bs × ArePieces ps
ArePieces (written_bytes hs ∷ ps) = AllBytes (bytes_of hs) × ArePieces ps

normalize_char-text : (c : ℕ) → c ≢ b'|' → normalize_char in_text c ≡ (in_text, escape c)
unfolding normalize_char
normalize_char-text c h = ground arith

read-text :
    (t rest : List ℕ)
    → AllText t
    → literal_bytes (normalize_from in_text (t ++ rest))
      ≡ and_bytes t (literal_bytes (normalize_from in_text rest))
unfolding normalize_from
read-text [] rest h = sym (and_bytes-nil _)
read-text (c ∷ t) rest h = rw (normalize_char-text c h.0) (
    read_literals-escape c (normalize_from in_text (t ++ rest))
    ∙ ap (and_bytes (c ∷ [])) (read-text t rest h.1)
    ∙ and_bytes-append (c ∷ []) t (literal_bytes (normalize_from in_text rest)))

normalize_from-bars :
    (bs rest : List ℕ)
    → AllBytes bs
    → literal_bytes (normalize_from in_text (b'|' ∷ (hex_text bs ++ (b'|' ∷ rest))))
      ≡ and_bytes bs (literal_bytes (normalize_from in_text rest))
unfolding normalize_from
normalize_from-bars bs rest h =
    rw (normalize_char-bar.0) (read-hex_text bs (b'|' ∷ rest) h ∙ rw (normalize_char-bar.1) refl)

-- The regular expression of a text of plain pieces without a bar and of bytes between bars, in capital
-- or small digits, with spaces anywhere or without, matches exactly the bytes that the pieces stand
-- for.
pub normalize_content_to_regex-render :
    (ps : List Piece)
    → ArePieces ps
    → literal_bytes (normalize_content_to_regex (render ps)) ≡ some (denoted ps)
unfolding normalize_content_to_regex normalize_from
normalize_content_to_regex-render [] h = refl
normalize_content_to_regex-render (plain_text t ∷ ps) h =
    read-text t (render ps) h.0 ∙ ap (and_bytes t) (normalize_content_to_regex-render ps h.1)
normalize_content_to_regex-render (bar_bytes bs ∷ ps) h =
    normalize_from-bars bs (render ps) h.0
    ∙ ap (and_bytes bs) (normalize_content_to_regex-render ps h.1)
normalize_content_to_regex-render (written_bytes hs ∷ ps) h = rw (normalize_char-bar.0) (
    read-written hs (b'|' ∷ render ps) h.0
    ∙ rw (normalize_char-bar.1)
        (ap (and_bytes (bytes_of hs)) (normalize_content_to_regex-render ps h.1)))
