-- ===== src/Sutils/Tests.antt =====
-- Runs of sutils at concrete inputs, and its theorems at concrete inputs.
use gosutils.Prelude.{
  replicate, Option, drop, ℕ, ◌≡◌, refl, arith, Bool, true, false, not, ◌&&◌, [], ◌∷◌, ◌++◌, ◌==◌,
  if◌then◌else◌, none, some, length,
}
use gosutils.Prelude.Int.{pos, negsuc}
use gosutils.Prelude.Text.{Text, codes, is_empty, text_eq}
use gosutils.Sutils.Paths.{split_paths, has, path_remove, path_cleanup}
use gosutils.Sutils.Removed.{begins_with, others, split_paths-path_remove, path_cleanup-clean}
use gosutils.Sutils.Lines.{scan, insert_string_at_line}
use gosutils.Sutils.Files.{
  Host, Disk, file_replace_regex, file_is_match_lines, file_update_or_add, line_number,
}
use gosutils.Sutils.Updated.{IsUpdated, file_update_or_add-ok}
use gosutils.Sutils.Nginx.{format_nginx_conf}
use gosutils.Sutils.Formatted.{contents, format_nginx_conf-same}
use gosutils.Endec.Gcm.{Gcm}
use gosutils.Sutils.Secrets.{
  hex_decode, string_encrypt, string_decrypt, string_create_key_from_string,
}
use gosutils.Sutils.Decrypted.{string_decrypt-encrypt, string_create_key-prefix}
use gosutils.Sutils.Container.{get_current_container_id}

abbrev colon : ℕ
colon = b':'

-- The path of the directory in front leaves an empty path behind.
path_remove_run :
    (path_remove colon (codes "/a:/b:/c") (codes "/b") ≡ codes "/a:/c")
    × (path_remove colon (codes "/a:/b:/c") (codes "/a") ≡ codes ":/b:/c")
unfolding path_remove
path_remove_run = (refl, refl)

path_removed : split_paths colon (path_remove colon (codes "/a:/b") (codes "/a")) ≡ (
    if begins_with (codes "/a") (split_paths colon (codes "/a:/b"))
    then [] ∷ others (codes "/a") (split_paths colon (codes "/a:/b"))
    else others (codes "/a") (split_paths colon (codes "/a:/b")))
path_removed = split_paths-path_remove colon (codes "/a:/b") (codes "/a") (λ e. ground (arith, e))

abbrev is_there : Text → Bool
is_there p = not (is_empty p) && not (text_eq p (codes "/b"))

path_cleanup_run : path_cleanup colon is_there (codes "/a:/b:/a:/c") ≡ codes "/a:/c"
unfolding path_cleanup text_eq
path_cleanup_run = refl

paths_cleaned :
    (has (split_paths colon (path_cleanup colon is_there (codes "/a:/b:/a"))) (codes "/a")
      ≡ (has (split_paths colon (codes "/a:/b:/a")) (codes "/a") && is_there (codes "/a")))
    × (path_cleanup colon is_there (path_cleanup colon is_there (codes "/a:/b:/a"))
        ≡ path_cleanup colon is_there (codes "/a:/b:/a"))
paths_cleaned =
    path_cleanup-clean is_there colon (codes "/a:/b:/a") (codes "/a") refl (λ e. ground (arith, e))

insert_run :
    (insert_string_at_line (codes "x") (pos 2) (codes "a\nb") ≡ some (codes "a\nx\nb\n"))
    × (insert_string_at_line (codes "x") (pos 4) (codes "a\n") ≡ some (codes "a\n\n\nx\n"))
    × (insert_string_at_line (codes "x") (negsuc 0) (codes "a\n") ≡ some (codes "a\nx\n"))
unfolding insert_string_at_line
insert_run = (refl, refl, refl)

-- A regular expression is the text that it matches, at the start of a text only.
abbrev starts : Text → Text → Bool
starts [] t = true
starts (c ∷ cs) [] = false
starts (c ∷ cs) (d ∷ ds) = c == d && starts cs ds

abbrev literal : Host
literal = record {
  Regexp = Text;
  compile = some;
  quote_meta = λ s. s;
  find_all = λ re s. if starts re s then re ∷ [] else [];
  replace_matches = λ re s new. if text_eq re s then new else s;
  replace_matches_literal = λ re s new. if text_eq re s then new else s;
  can_read = λ p. true;
  can_write = λ p. true;
}

abbrev disk : Disk
disk p = if text_eq p (codes "f") then some (codes "a\n") else none

update_run :
    (file_update_or_add literal (codes "f") (codes "x") (codes "x") (codes "b") true [] disk).0
      (codes "f")
    ≡ some (codes "x\na\n")
unfolding file_update_or_add text_eq
update_run = refl

file_update_or_add-ok_example :
    ((file_update_or_add literal (codes "f") (codes "x") (codes "x") (codes "b") true [] disk).0
        (codes "g")
      ≡ disk (codes "g"))
    × IsUpdated literal
        (codes "f")
        (codes "x")
        (line_number literal [])
        (file_is_match_lines literal (codes "f") (codes "x") true)
        disk
        (file_replace_regex literal (codes "b") (codes "x") (codes "f") false disk).0
        (file_update_or_add literal (codes "f") (codes "x") (codes "x") (codes "b") true [] disk).0
unfolding file_update_or_add text_eq
file_update_or_add-ok_example =
    file_update_or_add-ok literal (codes "f") (codes "x") (codes "x") (codes "b") (codes "g") true
      [] disk refl refl refl

abbrev conf : Text
conf = codes "a {\n   b;\n\n }\nc;"

abbrev formatted : Text
formatted = codes "a {\n\tb;\n}\nc;\n"

format_run : (format_nginx_conf conf ≡ some formatted) × (format_nginx_conf (codes "}") ≡ none)
unfolding format_nginx_conf
format_run = (refl, refl)

format_nginx_conf-same_example :
    (contents (scan formatted).lines ≡ contents (scan conf).lines)
    × (format_nginx_conf formatted ≡ some formatted)
unfolding format_nginx_conf
format_nginx_conf-same_example = format_nginx_conf-same conf formatted refl refl

-- A cipher that hides nothing and puts a tag of one byte in front.
abbrev plain : Gcm
plain = record {
  is_key = λ k. length k == 2;
  nonce_size = 1;
  seal = λ key nonce text. 0 ∷ text;
  unseal = λ key nonce text. some (drop 1 text);
  unseal-seal = λ key nonce text b. refl;
  seal-bytes = λ key nonce text b. (omega arith, b);
  seal-longer = λ key nonce text. omega arith;
}

encrypt_run :
    string_encrypt plain (some (7 ∷ [])) (codes "hi") (codes "00ff") ≡ (none, codes "07006869")
unfolding string_encrypt
encrypt_run = refl

string_decrypt-encrypt_example :
    ((string_encrypt plain (some (7 ∷ [])) (codes "hi") (codes "00ff")).0 ≡ none)
    × (string_decrypt plain
          (string_encrypt plain (some (7 ∷ [])) (codes "hi") (codes "00ff")).1
          (codes "00ff")
        ≡ (none, codes "hi"))
unfolding hex_decode
string_decrypt-encrypt_example =
    string_decrypt-encrypt plain (7 ∷ []) (codes "hi") (codes "00ff") refl refl (omega arith)
      (omega arith)

create_key_run :
    (string_create_key_from_string (codes "ab") (pos 3) ≡ some (codes "616200"))
    × (string_create_key_from_string (codes "abcd") (pos 3) ≡ some (codes "616200"))
unfolding string_create_key_from_string
create_key_run = (refl, refl)

string_create_key-prefix_example :
    string_create_key_from_string (codes "ab" ++ codes "cd") (pos 3)
    ≡ string_create_key_from_string (codes "ab") (pos 3)
string_create_key-prefix_example =
    string_create_key-prefix 2 (codes "ab") (codes "cd") refl (omega arith)

-- Without a digest the two texts of one number stand side by side.
-- The second pass finds what begins with the name of no host.
abbrev long_id : Text
long_id = replicate 64 b'a'

abbrev by_length : Text → Text → Option Text
by_length regex text = if text_eq regex (codes "([[:alnum:]]{64})") then some text else none

container_run :
    get_current_container_id by_length (λ p. some (codes "short\r\n" ++ long_id)) [] [] ≡ long_id
unfolding get_current_container_id text_eq
container_run = refl
