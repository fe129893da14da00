-- ===== src/VmUtils/Applying.antt =====
-- When the changes of `configureNewVM` reach the machine.
use idsproject.Base.{
  Text, codes, ℕ, suc, ◌≤◌, ℤ, pos, ltb_ℤ, true, false, any, not, ◌&&◌, ◌||◌, some, ◌≡◌, ◌∙◌, arith,
  ok, Bool-cases, inl, inr, if◌then◌else◌,
}
use idsproject.Host.{Domains, Tinyxml}
use idsproject.VmUtils.{
  is_bridge, is_channel, detect, edit_devices, find_devices, wait_off, finish, apply_xml,
  configure_new_vm, start_defined, release,
}
use idsproject.VmUtils.Devices.{detect-any}
use idsproject.VmUtils.Waiting.{EndsWithin, wait_off-EndsWithin}

module _ {Doc El S Dom : Type 0} (xml : Tinyxml Doc El) (domains : Domains S Dom) where
  -- A machine that has both the bridge and the channel is left as it is, its interfaces of the default
  -- network included, and neither the XML's text nor the domain's handle is freed: the environment
  -- behind the call is the one behind the reading of the XML.
  pub configure_new_vm-settled :
      (fuel : ℕ) (vm_name desc : Text) (s : S) {dom : Dom} {s1 s2 : S} {devices : El}
      → domains.virt.lookup_by_name vm_name s ≡ (some dom, s1)
      → domains.get_xml_desc dom s1 ≡ (some desc, s2)
      → find_devices xml (xml.parse desc) ≡ some devices
      → any (is_bridge xml) (xml.children devices) ≡ true
      → any (is_channel xml) (xml.children devices) ≡ true
      → configure_new_vm xml domains fuel vm_name s ≡ (ok tt, s2)
  unfolding configure_new_vm finish
  configure_new_vm-settled fuel vm_name desc s {devices} found read there bridge channel =
      let both : detect xml (false, false) (xml.children devices) ≡ (true, true) =
        detect-any xml (xml.children devices) false false ∙ (rw (bridge, channel)) in
      rw (found, read, there, both)

  -- The environment after a machine that is off was redefined, started if the definition was
  -- accepted, asked for its agent, and its handles were freed.
  abbrev pub restarted : Dom → Text → Text → S → S
  restarted dom desc new_xml s =
      let (defined, s1) = domains.define_xml new_xml s in
      let s2 = if defined then (domains.create dom s1).1 else s1 in
      let s3 =
        (domains.virt.agent_command dom (codes "{\"execute\":\"guest-ping\"}") (pos 15) s2).1 in
      domains.virt.domain_free dom (domains.free_text desc s3)

  apply_xml-restarted :
      (n fuel : ℕ) (dom : Dom) (desc new_xml : Text) (s : S) {code : ℤ} {s1 : S}
      → domains.shutdown dom s ≡ (code, s1)
      → ltb_ℤ code (pos 0) ≡ false
      → EndsWithin domains dom n s1
      → n ≤ fuel
      → apply_xml xml domains (suc fuel) dom desc new_xml s
        ≡ (ok tt, restarted dom desc new_xml (wait_off xml domains (suc fuel) dom s1).1)
  unfolding apply_xml start_defined release
  apply_xml-restarted n fuel dom desc new_xml s {s1} down accepted ends le =
      let off = wait_off-EndsWithin xml domains dom n fuel s1 ends le in
      let s2 = (wait_off xml domains (suc fuel) dom s1).1 in
      elim (Bool-cases (domains.define_xml new_xml s2).0) [
        | inl defined ↦ rw (restarted, down, accepted, off, defined, start_defined, release)
        | inr refused ↦ rw (restarted, down, accepted, off, refused, start_defined, release)
      ]

  -- Where one of the two is missing, the shutdown is accepted and some poll within `n` rounds finds
  -- the machine off or fails, the call returns, with fuel for one round more: the machine's new
  -- definition is the edited document, the machine is started where the definition was accepted, and
  -- both handles are freed.
  pub configure_new_vm-applies :
      (n fuel : ℕ) (vm_name desc : Text) (s : S) {dom : Dom} {s1 s2 s3 : S} {devices : El}
      {code : ℤ}
      → domains.virt.lookup_by_name vm_name s ≡ (some dom, s1)
      → domains.get_xml_desc dom s1 ≡ (some desc, s2)
      → find_devices xml (xml.parse desc) ≡ some devices
      → (any (is_bridge xml) (xml.children devices) && any (is_channel xml) (xml.children devices))
        ≡ false
      → domains.shutdown dom s2 ≡ (code, s3)
      → ltb_ℤ code (pos 0) ≡ false
      → EndsWithin domains dom n s3
      → n ≤ fuel
      → configure_new_vm xml domains (suc fuel) vm_name s ≡ (
        ok tt,
        restarted dom desc
            (xml.print (
              xml.put_devices
                (edit_devices xml (detect xml (false, false) (xml.children devices)) devices)
                (xml.parse desc)))
            (wait_off xml domains (suc fuel) dom s3).1,
      )
  unfolding configure_new_vm finish
  configure_new_vm-applies n fuel vm_name desc s {dom} {s2} {devices} found read there missing down
        accepted ends le =
      let es = xml.children devices in
      let seen = detect-any xml es false false in
      let some_missing : (not (any (is_bridge xml) es) || not (any (is_channel xml) es)) ≡ true =
        ground arith in
      rw (found, read, there, seen, some_missing)
        (apply_xml-restarted n fuel dom desc _ s2 down accepted ends le)
