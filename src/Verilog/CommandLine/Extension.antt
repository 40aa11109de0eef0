-- ===== src/Verilog/CommandLine/Extension.antt =====
-- Which names have an extension.
use hif_frontend.Common.{
  ℕ, ◌+◌, ◌-◌, ◌≤◌, ◌≡◌, refl, sym, ap, ◌∙◌, ◌↔◌, true, ==_iff, Option, none, some, [], ◌∷◌, ◌++◌,
  append-nil, length, length-append, arith, Bytes,
}
use hif_frontend.Common.Search.{find_text, some_eq, find_text-some, find_text_first}
use hif_frontend.Verilog.CommandLine.{check_extension}

-- The name ends with the extension, which stands nowhere else in it.
abbrev pub EndsOnly : (file_name extension : Bytes) → Type 0
EndsOnly file_name extension =
    ((stem : Bytes) × (file_name ≡ stem ++ extension))
    × ((a b : Bytes) → file_name ≡ a ++ (extension ++ b) → b ≡ [])

empty_of_length : (b : Bytes) → length b ≡ 0 → b ≡ []
empty_of_length [] h = refl
empty_of_length (x ∷ b) h = absurd (omega (arith, h))

-- The lengths of a name that is cut at an occurrence.
cut-length : (s a e b : Bytes) → s ≡ a ++ (e ++ b) → length s ≡ length a + (length e + length b)
cut-length s a e b h = rw h (length-append a (e ++ b) ∙ rw (length-append e b) refl)

earlier :
    (s ext : Bytes) (n : ℕ) (a b : Bytes)
    → s ≡ a ++ (ext ++ b)
    → find_text ext s ≡ some n
    → n ≤ length a
earlier s ext n a b split e =
    let (m, found, le) = find_text_first ext a b in
    omega (arith, le, some_eq (sym e ∙ ap (find_text ext) split ∙ found))

-- The test holds exactly if the name ends with the extension and the extension stands nowhere
-- else in the name.
pub check_extension-EndsOnly :
    (file_name extension : Bytes)
    → (check_extension file_name extension ≡ true) ↔ EndsOnly file_name extension
unfolding check_extension
check_extension-EndsOnly s ext = (forth, back)
  where
    forth : check_extension s ext ≡ true → EndsOnly s ext
    forth h = go (find_text ext s) refl
      where
        go : (o : Option ℕ) → find_text ext s ≡ o → EndsOnly s ext
        go none e = cc (rw (e, check_extension) at h)
        go (some n) e =
            let fits : length s - n ≡ length ext =
              (==_iff (length s - n) (length ext)).0 (rw (e, check_extension) at h) in
            let (a, b, split, at_n) = find_text-some ext s n e in
            let len = cut-length s a ext b split in
            let b_empty = empty_of_length b (omega (arith, fits, len, at_n)) in
            (
              (a, split ∙ rw (b_empty, append-nil ext) refl),
              λ a' b' split'. empty_of_length b' (
                  omega (
                    arith,
                    cut-length s a' ext b' split',
                    fits,
                    len,
                    at_n,
                    earlier s ext n a' b' split' e,
                  )),
            )

    back : EndsOnly s ext → check_extension s ext ≡ true
    back ((stem, e), only) =
        let (n, found, le) = find_text_first ext stem [] in
        let there : find_text ext s ≡ some n = rw e (rw (append-nil ext) at found) in
        let (a, b, split, at_n) = find_text-some ext s n there in
        rw (there, check_extension)
          ((==_iff (length s - n) (length ext)).1
            (omega (arith, cut-length s a ext b split, at_n, ap length (only a b split))))
