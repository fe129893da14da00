-- ===== src/Signatures.antt =====
-- src/detection/signatures.cpp: the key of MalwareBazaar's interface, and one request to it.
pub mod Key
pub mod Requests
use idsproject.Base.{
  Text, ℕ, ◌++◌, codes, String, is_empty, starts_with, drop, trim_left, trim_right, lines, length,
  ◌==◌, Bool, true, false, ◌||◌, Option, none, some, List, [], ◌∷◌, if◌then◌else◌, Run, pure, fail,
  call, need, effect, ◌>>=◌, ◌>>◌,
}
use idsproject.Host.{Disk, Curl, Request, Nlohmann}

unfoldable pub is_blank : ℕ → Bool
is_blank c = (c == b' ') || (c == b'\t')

unfoldable pub trim : Text → Text
unfolding is_blank
trim line = trim_right is_blank (trim_left is_blank line)

abbrev pub prefix : Text
prefix = codes "AUTH_KEY="

-- The key of the first line that begins with the prefix; blank lines are skipped.
unfoldable pub find_key : List Text → Option Text
find_key [] = none
find_key (line ∷ rest) =
    let later = find_key rest in
    if starts_with prefix (trim line) then some (drop 9 (trim line)) else later

abbrev pub env_path : Text
env_path = codes "/root/CLionProjects/IDSProject/.env"

unfoldable pub request_for : Text → Option Text → Request
request_for key form = record {
  url = codes "https://mb-api.abuse.ch/api/v1/";
  post_fields = form;
  headers =
      codes "Content-Type: application/x-www-form-urlencoded" ∷ (codes "Auth-Key: " ++ key) ∷ [];
}

-- The body, which is left out where the escaping fails.
unfoldable pub form_of : Option Text → Option Text
form_of none = none
form_of (some escaped) = some (codes "query=get_info&hash=" ++ escaped)

joined : List Text → Text
joined [] = []
joined (chunk ∷ rest) = chunk ++ joined rest

module _ {S H J : Type 0} (disk : Disk S) (curl : Curl S H) (json : Nlohmann J) where
  unfoldable pub load_auth_key : Text → Run S Text
  load_auth_key path = do
    contents ← call (λ s. (disk.read path s, s)) >>= need
    need (find_key (lines contents))

  -- The request is made whether or not there is a body; the handle is freed on both ways out of it.
  send : H → Text → Text → Run S (Bool × List Text)
  send h key hash = do
    escaped ← call (curl.easy_escape h hash)
    answer ← call (curl.easy_perform h (request_for key (form_of escaped)))
    effect (curl.easy_cleanup h)
    pure answer

  -- `fail` is the answer false; a parse error is caught and is one too.
  unfoldable pub query_malware_bazaar : Text → Run S J
  unfolding send joined load_auth_key
  query_malware_bazaar hash = do
    key ← load_auth_key env_path
    h ← call curl.easy_init >>= need
    (performed, chunks) ← send h key hash
    if performed then need (json.parse (joined chunks)) else fail
