-- ===== src/VmUtils.antt =====
-- src/initializeTest/vm_utils.cpp: the bridge of the host, and the devices of a machine's XML.
pub mod Kinds
pub mod Devices
pub mod Waiting
pub mod Applying
use idsproject.Base.{
  Text, ℕ, ◌++◌, codes, String, ℤ, pos, eqb_ℤ, ltb_ℤ, text_eq, ltb, ◌-◌, suc, zero, Bool, true,
  false, ◌&&◌, ◌||◌, not, Option, none, some, List, [], ◌∷◌, if◌then◌else◌, Run, Result, ok, spent,
  lift, pure, fail, call, need, effect, ◌>>=◌, ◌>>◌,
}
use idsproject.Host.{Domains, Tinyxml, Shell}

abbrev pub bridge_name : Text
bridge_name = codes "red-central"

abbrev pub agent_name : Text
agent_name = codes "org.qemu.guest_agent.0"

-- A possibly null text that is compared with a constant.
unfoldable pub is_text : Option Text → Text → Bool
is_text none t = false
is_text (some u) t = text_eq u t

module _ {Doc El : Type 0} (xml : Tinyxml Doc El) where
  -- The tag, the type, and an attribute of the first child with some name.
  unfoldable pub is_device : Text → Text → Text → Text → Text → El → Bool
  unfolding is_text
  is_device tag type inner key value e =
      text_eq (xml.name e) tag
      && (is_text (xml.attribute (codes "type") e) type && elim (xml.first_child_element e inner) [
        | none ↦ false
        | some i ↦ is_text (xml.attribute key i) value
      ])

  unfoldable pub is_bridge : El → Bool
  is_bridge =
      is_device (codes "interface") (codes "bridge") (codes "source") (codes "bridge") bridge_name

  unfoldable pub is_channel : El → Bool
  is_channel = is_device (codes "channel") (codes "unix") (codes "target") (codes "name") agent_name

  unfoldable pub is_default_nat : El → Bool
  is_default_nat =
      is_device (codes "interface") (codes "network") (codes "source") (codes "network")
        (codes "default")

  -- The loop that looks for both, and its `break`.
  unfoldable pub detect : Bool × Bool → List El → Bool × Bool
  detect found [] = found
  detect (bridge, channel) (e ∷ rest) =
      let bridge' = bridge || is_bridge e in
      let channel' = channel || is_channel e in
      let later = detect (bridge', channel') rest in
      if bridge' && channel' then (bridge', channel') else later

  -- The loop that deletes the default NAT interfaces.
  unfoldable pub without_nat : List El → List El
  without_nat [] = []
  without_nat (e ∷ rest) =
      let later = without_nat rest in if is_default_nat e then later else e ∷ later

  unfoldable pub insert_end_child : El → El → El
  insert_end_child parent child = xml.with_children (xml.children parent ++ child ∷ []) parent

  unfoldable pub new_bridge : El
  unfolding insert_end_child
  new_bridge =
      insert_end_child
        (xml.set_attribute (codes "type") (codes "bridge") (xml.new_element (codes "interface")))
        (xml.set_attribute (codes "bridge") bridge_name (xml.new_element (codes "source")))

  unfoldable pub new_channel : El
  unfolding insert_end_child
  new_channel =
      insert_end_child
        (xml.set_attribute (codes "type") (codes "unix") (xml.new_element (codes "channel")))
        (xml.set_attribute (codes "name") agent_name
          (xml.set_attribute (codes "type") (codes "virtio") (xml.new_element (codes "target"))))

  -- `if (!has) devices->InsertEndChild(child);`
  unfoldable pub add_unless : Bool → El → El → El
  add_unless has child devices = if has then devices else insert_end_child devices child

  unfoldable pub delete_nat : El → El
  delete_nat devices = xml.with_children (without_nat (xml.children devices)) devices

  -- All changes of `devices`, from what was detected before them.
  unfoldable pub edit_devices : Bool × Bool → El → El
  unfolding add_unless delete_nat
  edit_devices (has_bridge, has_channel) devices =
      add_unless has_channel new_channel (add_unless has_bridge new_bridge (delete_nat devices))

  unfoldable pub find_devices : Doc → Option El
  find_devices doc = elim (xml.top_element doc (codes "domain")) [
    | none ↦ none
    | some domain ↦ xml.first_child_element domain (codes "devices")
  ]

  module _ {S Dom : Type 0} (domains : Domains S Dom) where
    -- The loop that waits for the power-off: it has no bound, so the model has fuel.
    unfoldable pub wait_off : ℕ → Dom → Run S (Unit {0})
    wait_off zero dom = lift spent
    wait_off (suc fuel) dom = do
      state ← call (domains.get_state dom)
      let again = wait_off fuel dom
      elim state [
        | none ↦ pure tt
        | some n ↦ if eqb_ℤ n (pos 5) then pure tt else (do effect (domains.sleep_ms 1000); again)
      ]

    unfoldable pub start_defined : Dom → Bool → Run S (Unit {0})
    start_defined dom false = pure tt
    start_defined dom true = do call (domains.create dom); pure tt

    unfoldable pub release : Text → Dom → Run S (Unit {0})
    release desc dom = do effect (domains.free_text desc); effect (domains.virt.domain_free dom)

    -- The machine is shut down, redefined and started, and its agent is asked once.
    unfoldable pub apply_xml : ℕ → Dom → Text → Text → Run S (Unit {0})
    unfolding start_defined release
    apply_xml fuel dom desc new_xml = do
      stopped ← call (domains.shutdown dom)
      if ltb_ℤ stopped (pos 0) then (do release desc dom; fail) else (do
        wait_off fuel dom
        defined ← call (domains.define_xml new_xml)
        start_defined dom defined
        call (domains.virt.agent_command dom (codes "{\"execute\":\"guest-ping\"}") (pos 15))
        release desc dom)

    -- Only where one of the two was missing.
    unfoldable pub finish : ℕ → Dom → Text → Doc → El → Run S (Unit {0})
    finish fuel dom desc doc devices =
        let found = detect (false, false) (xml.children devices) in
        let new_xml = xml.print (xml.put_devices (edit_devices found devices) doc) in
        if not found.0 || not found.1 then apply_xml fuel dom desc new_xml else pure tt

    unfoldable pub need_or_release : Dom → Text → Option El → Run S El
    unfolding release
    need_or_release dom desc none = do release desc dom; fail
    need_or_release dom desc (some devices) = pure devices

    unfoldable pub need_or_free : Dom → Option Text → Run S Text
    need_or_free dom none = do effect (domains.virt.domain_free dom); fail
    need_or_free dom (some desc) = pure desc

    -- `fail` stands for an early `return` behind a message.
    unfoldable pub configure_new_vm : ℕ → Text → Run S (Unit {0})
    unfolding need_or_release need_or_free
    configure_new_vm fuel vm_name = do
      dom ← call (domains.virt.lookup_by_name vm_name) >>= need
      desc ← call (domains.get_xml_desc dom) >>= need_or_free dom
      let doc = xml.parse desc
      devices ← need_or_release dom desc (find_devices doc)
      finish fuel dom desc doc devices

module _ {S : Type 0} (shell : Shell S) where
  -- `std::system(cmd) != 0` is a failure.
  unfoldable pub command : Text → Run S Bool
  command cmd = do status ← call (shell.system cmd); pure (eqb_ℤ status (pos 0))

  unfoldable pub create_bridge : Run S Bool
  unfolding command
  create_bridge = do
    added ← command (codes "ip link add name " ++ (bridge_name ++ codes " type bridge"))
    if not added
        then pure false
        else command (codes "ip link set dev " ++ (bridge_name ++ codes " up"))

  unfoldable pub ensure_bridge_exists : Run S Bool
  unfolding create_bridge command
  ensure_bridge_exists = do
    there ← command (codes "ip link show " ++ (bridge_name ++ codes " > /dev/null 2>&1"))
    if there then pure true else create_bridge

  -- It returns nothing: whatever goes wrong is a message.
  unfoldable pub ensure_directory_exists : Text → Run S (Unit {0})
  ensure_directory_exists path s =
      if shell.exists path s then (ok tt, s) else (ok tt, (shell.create_directories path s).1)

  module _ {Dom : Type 0} (domains : Domains S Dom) where
    wait_loop : ℕ → Dom → ℤ → ℕ → ℕ → Run S Bool
    wait_loop zero dom desired timeout start = lift spent
    wait_loop (suc fuel) dom desired timeout start = do
      now ← call shell.now
      let again = wait_loop fuel dom desired timeout start
      if not (ltb (now - start) timeout) then pure false else (do
        state ← call (domains.get_state dom)
        let slept = (do effect (domains.sleep_ms 1000); again)
        elim state [ none ↦ slept | some n ↦ if eqb_ℤ n desired then pure true else slept ])

    -- `timeout` is in seconds, and so is the clock.
    unfoldable pub wait_for_state : ℕ → Dom → ℤ → ℕ → Run S Bool
    unfolding wait_loop
    wait_for_state fuel dom desired timeout = do
      start ← call shell.now
      wait_loop fuel dom desired timeout start
