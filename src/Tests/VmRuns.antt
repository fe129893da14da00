-- ===== src/Tests/VmRuns.antt =====
-- `configureNewVM` on small machines.
use idsproject.Base.{
  Bool, ◌↔◌, List, codes, pos, lookup, insert, text_eq, true, false, ◌++◌, ◌≡◌, refl, arith, ok,
  spent, inr,
}
use idsproject.Host.{Tinyxml}
use idsproject.VmUtils.{
  is_text, is_device, is_bridge, is_channel, is_default_nat, detect, without_nat, insert_end_child,
  new_bridge, new_channel, edit_devices, find_devices, wait_off, configure_new_vm,
}
use idsproject.VmUtils.Kinds.{Any, IsBridge, IsChannel, IsDefaultNetwork, KeptOthers}
use idsproject.VmUtils.Devices.{added, edit_devices-Prepared}
use idsproject.VmUtils.Waiting.{wait_off-EndsWithin, wait_off-forever}
use idsproject.VmUtils.Applying.{restarted, configure_new_vm-settled, configure_new_vm-applies}
use idsproject.Tests.Machines.{
  Tree, bare, tree_xml, tree_xml-IsTree, slow_domains, stubborn_domains,
}

abbrev xml : Tinyxml Tree Tree
xml = tree_xml bare

-- The devices of `bare` after the changes.
abbrev ready : Tree
ready = edit_devices xml (false, false) bare

edit_devices-Prepared_example :
    (others : List Tree) × (has_bridge : Bool) × (has_channel : Bool) × KeptOthers xml
      (xml.children bare)
      others
    × ((has_bridge ≡ true) ↔ Any (IsBridge xml) (xml.children bare))
    × ((has_channel ≡ true) ↔ Any (IsChannel xml) (xml.children bare))
    × (xml.children (edit_devices xml (detect xml (false, false) (xml.children bare)) bare)
        ≡ others ++ (added has_bridge (new_bridge xml) ++ added has_channel (new_channel xml)))
    × Any
        (IsBridge xml)
        (xml.children (edit_devices xml (detect xml (false, false) (xml.children bare)) bare))
    × Any
        (IsChannel xml)
        (xml.children (edit_devices xml (detect xml (false, false) (xml.children bare)) bare))
    × (Any
          (IsDefaultNetwork xml)
          (xml.children (edit_devices xml (detect xml (false, false) (xml.children bare)) bare))
        → ⊥)
edit_devices-Prepared_example = edit_devices-Prepared xml (tree_xml-IsTree bare) bare

wait_off-EndsWithin_example : (wait_off xml slow_domains 3 tt 2).0 ≡ ok tt
wait_off-EndsWithin_example =
    wait_off-EndsWithin xml slow_domains tt 2 2 2 (inr (inr (inr refl))) (omega arith)

wait_off-forever_example : (wait_off xml stubborn_domains 1000 tt 0).0 ≡ spent
wait_off-forever_example =
    wait_off-forever xml stubborn_domains tt (λ t. Unit) 1000 0 (λ t u. (pos 1, refl, refl))
      (λ t u. tt) tt

abbrev settled_xml : Tinyxml Tree Tree
settled_xml = tree_xml ready

configure_new_vm-settled_example :
    configure_new_vm settled_xml slow_domains 0 (codes "vm") 4 ≡ (ok tt, 4)
unfolding find_devices is_bridge is_channel is_device is_text text_eq edit_devices insert_end_child
    without_nat is_default_nat lookup new_bridge insert new_channel
configure_new_vm-settled_example =
    configure_new_vm-settled settled_xml slow_domains 0 (codes "vm") (codes "old") 4 refl refl refl
      refl refl

configure_new_vm-applies_example : configure_new_vm xml slow_domains 2 (codes "vm") 4 ≡ (
  ok tt,
  restarted xml slow_domains tt (codes "old") (codes "new") (wait_off xml slow_domains 2 tt 1).1,
)
unfolding find_devices is_bridge is_channel is_device is_text text_eq lookup
configure_new_vm-applies_example =
    configure_new_vm-applies xml slow_domains 1 1 (codes "vm") (codes "old") 4 refl refl refl refl
      refl refl (inr (inr refl)) (omega arith)
