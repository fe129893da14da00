-- ===== src/Tests/ProcessRuns.antt =====
-- The check of files against the cache and the service, and blocks of a guest's file.
use idsproject.Base.{
  Text, ℕ, zero, suc, codes, pos, text_eq, lookup, insert, false, Option, none, some, List, [], ◌∷◌,
  ◌≡◌, refl, arith, ok,
}
use idsproject.Host.{Libvirt, Nlohmann, JsonBuild, Crypto}
use idsproject.HashDb.{get_record, set_record}
use idsproject.Signatures.{query_malware_bazaar}
use idsproject.ProcessMonitor.{judge, ask_api, new_record, read_chunks, ask_chunk, read_answer}
use idsproject.ProcessMonitor.Cache.{AlwaysJudged, judge-offline}
use idsproject.ProcessMonitor.Chunks.{joined, read_chunks-Delivers, goes_on, breaks_off}
use idsproject.Tests.Documents.{Doc, text, obj, end, field, toy_nlohmann}
use idsproject.Tests.Databases.{
  Table, empty_table, table_sqlite, no_disk, no_curl, table_sqlite-IsTable,
}

abbrev env_file : List Text
env_file = codes "# keys" ∷ codes "\t AUTH_KEY=abc  " ∷ []

abbrev json : Nlohmann Doc
json =
    toy_nlohmann (codes "{}")
      (obj (field (codes "return") (obj (field (codes "buf-b64") (text (codes "ab")) end)) end))

-- The host has no environment file, so every request fails.
judge-offline_example :
    (s1 : Table) × (judge json no_disk table_sqlite no_curl
        (some tt)
        (codes "ff")
        (codes "/a")
        1
        empty_table
      ≡ (ok false, s1))
    × AlwaysJudged json no_disk table_sqlite no_curl
        (some tt)
        table_sqlite-IsTable
        (codes "ff")
        false
        ((codes "/b", 2) ∷ (codes "/c", 3) ∷ [])
        s1
unfolding get_record query_malware_bazaar text_eq lookup
judge-offline_example =
    judge-offline json no_disk table_sqlite no_curl (some tt) table_sqlite-IsTable (codes "ff")
      (codes "/a") 1 ((codes "/b", 2) ∷ (codes "/c", 3) ∷ []) empty_table refl refl

abbrev after_first : Table
after_first = record {
  hash = codes "ff";
  row = new_record (codes "/a") false 1;
  rows = (codes "ff", new_record (codes "/a") false 1) ∷ [];
  open_count = 0;
}

first_check :
    judge json no_disk table_sqlite no_curl (some tt) (codes "ff") (codes "/a") 1 empty_table
    ≡ (ok false, after_first)
unfolding judge get_record text_eq lookup ask_api query_malware_bazaar set_record new_record insert
first_check = refl

-- The agent answers as often as the state says.
abbrev tick : ℕ → Option Text × ℕ
tick zero = (none, 0)
tick (suc n) = (some (codes "{}"), n)

abbrev virt : Libvirt ℕ Unit
virt = record {
  lookup_by_name = λ n s. (some tt, s);
  domain_free = λ d s. s;
  agent_command = λ d c t s. tick s;
}

abbrev build : JsonBuild Doc
build = record {
  object = λ fs. obj end;
  text = λ t. text t;
  int = λ i. obj end;
  dump = λ d. some (codes "cmd");
}

abbrev crypto : Crypto
crypto = record { sha256 = λ t. t; decode = λ t. some t }

read_chunks-Delivers_example :
    read_chunks virt json build crypto 3 tt (pos 1) [] 2
    ≡ (ok (joined (codes "ab" ∷ codes "ab" ∷ [])), 0)
unfolding ask_chunk read_answer text_eq
read_chunks-Delivers_example =
    read_chunks-Delivers virt json build crypto tt (pos 1) 2 [] {s = 2}
      (goes_on refl refl (goes_on refl refl (breaks_off refl))) (omega arith)
