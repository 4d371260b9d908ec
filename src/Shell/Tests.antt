-- ===== src/Shell/Tests.antt =====
-- Runs of the shell's text commands, and the theorems at inputs that they apply to.
use honeypot_go.Base.{
  ◌≡◌, refl, none, Bool, true, false, List, [], ◌∷◌, Bytes, codes, All, contains_str, same, ◌↔◌,
  ◌==◌,
}
use honeypot_go.Vfs.Tree.{lookup, find, perm_writable, meta, deref}
use honeypot_go.Vfs.Change.{chmod}
use honeypot_go.Vfs.Walk.{walk_path}
use honeypot_go.Vfs.Tests.{small}
use honeypot_go.Shell.Filters.{Codec, lines_of, text_of}
use honeypot_go.Shell.Sorting.{IsIncreasing}
use honeypot_go.Shell.SortUniq.{sort_uniq-IsIncreasing}
use honeypot_go.Shell.Dispatch.{filter_output, sort_filter, uniq_filter}
use honeypot_go.Shell.Lines.{lines_of-text_of}
use honeypot_go.Shell.Modes.{octal_to_perm, chmod-octal_to_perm}
use honeypot_go.Shell.Columns.{tr_line}
use honeypot_go.Shell.Glob.{glob_match}
use honeypot_go.Shell.GlobLaws.{Matches, glob_match-Matches}

abbrev three : List Bytes
three = codes "uid" ∷ codes "gid" ∷ codes "uid" ∷ []

abbrev plain_codec : Codec
plain_codec = record {
  base64_encode = λ s. s;
  base64_decode = λ s. none;
  sha256 = λ s. s;
  md5 = λ s. s;
}

sort_uniq-IsIncreasing_example :
    let out =
      filter_output plain_codec uniq_filter []
        (filter_output plain_codec sort_filter [] (codes "uid\n\nuid\n")) in
    IsIncreasing (lines_of out)
    × ((l : Bytes)
        → contains_str (lines_of out) l ≡ contains_str (lines_of (codes "uid\n\nuid\n")) l)
unfolding lines_of contains_str same
sort_uniq-IsIncreasing_example =
    sort_uniq-IsIncreasing plain_codec [] [] (codes "uid\n\nuid\n") (codes "uid") refl refl

lines_of-text_of_example : lines_of (text_of three) ≡ three
unfolding same
lines_of-text_of_example = lines_of-text_of three three_lines refl
  where
    three_lines : All (λ l. All (λ c. ◌≡◌ {A = Bool} (c == 10) false) l) three
    three_lines =
        ((refl, (refl, (refl, tt))), ((refl, (refl, (refl, tt))), ((refl, (refl, (refl, tt))), tt)))

chmod-octal_to_perm_example :
    perm_writable
      (meta (deref (chmod (codes "/tmp") (codes "rwxrwxrwx") small).0.root (codes "tmp" ∷ []))).perm
    ≡ false
unfolding octal_to_perm walk_path chmod lookup find
chmod-octal_to_perm_example =
    chmod-octal_to_perm (codes "/tmp") (codes "777") (codes "rwxrwxrwx") small (codes "tmp" ∷ [])
      refl refl refl

glob_match-Matches_example :
    (glob_match (codes "*.[ch]") (codes "a.c") ≡ true) ↔ Matches (codes "*.[ch]") (codes "a.c")
glob_match-Matches_example = glob_match-Matches (codes "*.[ch]") (codes "a.c")

glob_match_conf : glob_match (codes "*.con?") (codes "my.conf") ≡ true
unfolding glob_match
glob_match_conf = refl

-- tr goes character by character: the two bytes of é, and a byte that begins no character.
tr_line-deletes :
    tr_line true (195 ∷ 169 ∷ [], []) (97 ∷ 195 ∷ 169 ∷ 195 ∷ []) ≡ 97 ∷ 239 ∷ 191 ∷ 189 ∷ []
unfolding tr_line same
tr_line-deletes = refl

tr_line-replaces : tr_line false (codes "ab", codes "xy") (codes "cab") ≡ codes "cxy"
unfolding tr_line same
tr_line-replaces = refl
