-- ===== src/Tls/Parser/Roundtrip.antt =====
-- Extensions as a client writes them, and the parser's loop over them.
use intrusion_detection.Base.{
  ℕ, zero, suc, ◌+◌, ◌/◌, ◌%◌, ◌≤◌, ◌<◌, ◌≡◌, ◌∙◌, List, [], ◌∷◌, ◌++◌, length, length-append,
  get_elem?, get_elem?-append_right, drop-append, take-append, some, arith,
}
use mathlib.Core.List.{append_assoc}
use intrusion_detection.Tls.Parser.{read_u16_be, view, parse_server_name, parse_extensions}

-- A number in two bytes, big end first.
abbrev pub u16 : ℕ → List ℕ
u16 n = n / 256 ∷ n % 256 ∷ []

-- An extension is its type and its data.
pub record Extension : Type 0 where
  pub ext_type : ℕ
  pub body : List ℕ

abbrev pub encode_extension : Extension → List ℕ
encode_extension e = u16 e.ext_type ++ (u16 (length e.body) ++ e.body)

abbrev pub encode_extensions : List Extension → List ℕ
encode_extensions [] = []
encode_extensions (e ∷ es) = encode_extension e ++ encode_extensions es

-- The server name extension: a list of one host name.
abbrev pub server_name : List ℕ → Extension
server_name host = record {
  ext_type = 0;
  body = u16 (3 + length host) ++ (0 ∷ (u16 (length host) ++ host));
}

-- An extension of another kind.
pub record IsOther (e : Extension) : Type 0 where
  pub other_type : 0 < e.ext_type
  pub type_fits : e.ext_type < 65536
  pub body_fits : length e.body < 65536

abbrev pub AllOther : List Extension → Type 0
AllOther [] = Unit {0}
AllOther (e ∷ es) = IsOther e × AllOther es

-- A number that stands behind `pre` is read back.
pub read_u16_be-u16 :
    (p pre post : List ℕ) (n i : ℕ)
    → p ≡ pre ++ (u16 n ++ post)
    → n < 65536
    → i ≡ length pre
    → read_u16_be p i ≡ some n
unfolding read_u16_be
read_u16_be-u16 p pre post n i eq h e = rw eq (
    ground (
      arith,
      get_elem?-append_right pre (u16 n ++ post) i 0,
      get_elem?-append_right pre (u16 n ++ post) (i + 1) 1,
    ))

pub get_elem?-byte :
    (p pre post : List ℕ) (x i : ℕ)
    → p ≡ pre ++ (x ∷ post)
    → i ≡ length pre
    → get_elem? p i ≡ some x
get_elem?-byte p pre post x i eq e = rw eq (get_elem?-append_right pre (x ∷ post) i 0 (omega arith))

view-append :
    (p pre host post : List ℕ) (i n : ℕ)
    → p ≡ pre ++ (host ++ post)
    → i ≡ length pre
    → n ≡ length host
    → view p i n ≡ some host
unfolding view
view-append p pre host post i n eq e h = rw eq (
    ground (
      arith,
      length-append pre (host ++ post),
      length-append host post,
      drop-append pre (host ++ post) i e,
      take-append host post n h,
    ))

pub ruleset regroup = (append_assoc)

-- The name in a server name extension whose payload stands behind `pre`.
parse_server_name-host :
    (p pre host post : List ℕ) (offset ext_len end : ℕ)
    → p ≡ pre ++ ((server_name host).body ++ post)
    → offset ≡ length pre
    → ext_len ≡ 5 + length host
    → offset + ext_len ≤ end
    → 0 < length host
    → length host < 65531
    → parse_server_name p offset ext_len end ≡ some host
unfolding parse_server_name
parse_server_name-host p pre host post offset ext_len end eq e l room named fits =
    let n = length host in
    ground (
      arith,
      read_u16_be-u16 p pre (0 ∷ (u16 n ++ (host ++ post))) (3 + n) offset (eq ∙ simp regroup),
      get_elem?-byte p (pre ++ u16 (3 + n)) (u16 n ++ (host ++ post)) 0 (offset + 2)
          (eq ∙ simp regroup),
      read_u16_be-u16 p (pre ++ (u16 (3 + n) ++ (0 ∷ []))) (host ++ post) n (offset + 3)
          (eq ∙ simp regroup),
      view-append p (pre ++ (u16 (3 + n) ++ (0 ∷ u16 n))) host post (offset + 5) n
          (eq ∙ simp regroup),
      length-append pre (u16 (3 + n)),
      length-append pre (u16 (3 + n) ++ (0 ∷ [])),
      length-append pre (u16 (3 + n) ++ (0 ∷ u16 n)),
    )

length-encode_extension : (e : Extension) → length (encode_extension e) ≡ 4 + length e.body
length-encode_extension e = omega arith

-- The loop passes over other extensions to the server name.
pub parse_extensions-host :
    (es : List Extension) (host : List ℕ) (fuel : ℕ) (p pre post : List ℕ) (offset end : ℕ)
    → AllOther es
    → p ≡ pre ++ (encode_extensions es ++ (encode_extension (server_name host) ++ post))
    → offset ≡ length pre
    → offset + length (encode_extensions es ++ encode_extension (server_name host)) ≤ end
    → length es < fuel
    → 0 < length host
    → length host < 65531
    → parse_extensions fuel p offset end ≡ some host
unfolding parse_extensions
parse_extensions-host es host zero p pre post offset end others eq e room fuelled named fits =
    elim fuelled [ ]
parse_extensions-host [] host (suc fuel) p pre post offset end others eq e room fuelled named fits =
    let x = server_name host in
    let l = length x.body in
    let size : l ≡ 5 + length host = omega arith in
    ground (
      arith,
      read_u16_be-u16 p pre (u16 l ++ (x.body ++ post)) x.ext_type offset (eq ∙ simp regroup)
          (omega arith) e,
      read_u16_be-u16 p (pre ++ u16 x.ext_type) (x.body ++ post) l (offset + 2) (eq ∙ simp regroup),
      length-append pre (u16 x.ext_type),
      length-append pre (u16 x.ext_type ++ u16 l),
      parse_server_name-host p (pre ++ (u16 x.ext_type ++ u16 l)) host post (offset + 4) l end
          (eq ∙ simp regroup),
    )
parse_extensions-host (x ∷ es) host (suc fuel) p pre post offset end others eq e room fuelled named
      fits =
    let l = length x.body in
    let more = encode_extensions es ++ (encode_extension (server_name host) ++ post) in
    let after = encode_extensions es ++ encode_extension (server_name host) in
    let whole : length (encode_extensions (x ∷ es) ++ encode_extension (server_name host))
        ≡ 4 + l + length after =
      omega (
        arith,
        length-append (encode_extension x ++ encode_extensions es)
            (encode_extension (server_name host)),
        length-append (encode_extension x) (encode_extensions es),
        length-append (encode_extensions es) (encode_extension (server_name host)),
      ) in
    ground (
      arith,
      others.0.other_type,
      read_u16_be-u16 p pre (u16 l ++ (x.body ++ more)) x.ext_type offset (eq ∙ simp regroup)
          others.0.type_fits e,
      read_u16_be-u16 p (pre ++ u16 x.ext_type) (x.body ++ more) l (offset + 2) (eq ∙ simp regroup)
          others.0.body_fits,
      length-append pre (u16 x.ext_type),
      length-append pre (encode_extension x),
      parse_extensions-host es host fuel p (pre ++ encode_extension x) post (offset + 4 + l) end
          others.1 (eq ∙ simp regroup),
    )
