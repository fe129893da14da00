-- ===== src/VmManager.antt =====
-- src/initializeTest/initialize.h and initialize.cpp: the connection, and the names of the machines that
-- run.
pub mod Handles
use idsproject.Base.{
  Text, codes, String, ℤ, pos, ltb_ℤ, Bool, true, false, Option, none, some, List, [], ◌∷◌,
  if◌then◌else◌, Run, pure, fail, call, need, effect, ensure, not, or_value, ◌>>=◌, ◌>>◌,
}
use idsproject.Host.{Connections}

-- The object is its connection, or a null pointer.
abbrev pub VmManager : Type 0 → Type 0
VmManager Conn = Option Conn

-- `get_connection`
abbrev pub get_connection : {Conn : Type 0} → VmManager Conn → Option Conn
get_connection conn = conn

module _ {S Conn Dom : Type 0} (virt : Connections S Conn Dom) where
  -- The constructor.
  unfoldable pub open_manager : Run S (VmManager Conn)
  open_manager = call (virt.connect_open (codes "qemu:///system"))

  -- The destructor.
  unfoldable pub close_manager : VmManager Conn → Run S (Unit {0})
  close_manager none = pure tt
  close_manager (some conn) = effect (virt.connect_close conn)

  -- The name, if there is one, and the handle is freed.
  unfoldable pub name_of : Option Dom → Run S (Option Text)
  name_of none = pure none
  name_of (some dom) = do
    name ← call (λ s. (virt.get_name dom s, s))
    effect (virt.release dom)
    pure name

  pushed : Option Text → List Text → List Text
  pushed none later = later
  pushed (some name) later = name ∷ later

  -- The loop over the identifiers.
  unfoldable pub names_of : Conn → List ℤ → Run S (List Text)
  unfolding pushed
  names_of conn [] = pure []
  names_of conn (id ∷ rest) = do
    name ← call (virt.lookup_by_id conn id) >>= name_of
    later ← names_of conn rest
    pure (pushed name later)

  -- Empty where there is no connection or one of the two lists fails.
  unfoldable pub get_vm_names : VmManager Conn → Run S (List Text)
  get_vm_names manager = or_value [] do
    conn ← need manager
    total ← call (virt.count_all conn)
    ensure (not (ltb_ℤ total (pos 0)))
    ids ← call (virt.list_domains conn total) >>= need
    names_of conn ids
