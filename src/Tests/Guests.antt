-- ===== src/Tests/Guests.antt =====
-- A host with one text file, a machine whose files all have the same contents but for those with
-- `missing` in their path, and a digest that is its input.
use idsproject.Base.{
  Text, pos, codes, has_sub, true, Option, none, some, [], ◌++◌, refl, if◌then◌else◌,
}
use idsproject.Host.{Libvirt, JsonC, Evp, Disk}
use idsproject.FileMonitor.HostFile.{IsDisk, LeavesFile}

-- The state is the hash file.
abbrev pub Machine : Type 0
Machine = Option Text

abbrev pub toy_virt : Libvirt Machine Unit
toy_virt = record {
  lookup_by_name = λ n s. (some tt, s);
  domain_free = λ d s. s;
  agent_command =
      λ d cmd t s. (if has_sub (codes "missing") cmd then none else some (codes "QQ=="), s);
}

-- Every answer is a document of its own text, of any type that is asked for.
abbrev pub toy_json : JsonC Text
toy_json = record {
  tokener_parse = λ t. some t;
  object_get = λ j k. some j;
  is_int = λ j. true;
  is_object = λ j. true;
  is_string = λ j. true;
  get_int = λ j. pos 1000;
  get_string = λ j. j;
}

abbrev pub toy_evp : Evp Machine Text
toy_evp = record {
  ctx_new = λ s. (some [], s);
  ctx_free = λ c s. s;
  digest_init = λ c s. (true, s);
  digest_update = λ c t s. (true, s);
  digest_final = λ c s. (some (codes "K"), s);
}

abbrev pub append_text : Text → Machine → Machine
append_text t none = none
append_text t (some u) = some (u ++ t)

abbrev pub toy_disk : Disk Machine
toy_disk = record {
  read = λ f s. s;
  open_write = λ f s. (true, some []);
  write = λ f t s. append_text t s;
}

pub toy_disk-IsDisk : IsDisk toy_disk
toy_disk-IsDisk = record {
  read-open_write = λ f s h. refl;
  read-write = λ f t u s h. rw (h, append_text);
}

pub toy_LeavesFile : (f : Text) → LeavesFile toy_disk toy_virt toy_evp f
toy_LeavesFile f = record {
  lookup_by_name = λ n. record { at = λ s. refl };
  domain_free = λ d. record { at = λ s. refl };
  agent_command = λ d c. record { at = λ s. refl };
  ctx_new = record { at = λ s. refl };
  ctx_free = λ c. record { at = λ s. refl };
  digest_init = λ c. record { at = λ s. refl };
  digest_update = λ c t. record { at = λ s. refl };
  digest_final = λ c. record { at = λ s. refl };
}
