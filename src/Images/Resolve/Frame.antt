-- ===== src/Images/Resolve/Frame.antt =====
-- What resolving a reference changes of the service.
use cri_containerd.Base.{String, Option, none, some}
use cri_containerd.Exec.Keeps.{Keeps}
use cri_containerd.Service.{State, Env, StoreImage}
use cri_containerd.Service.Frame.{Outside, outside_rules}
use cri_containerd.Images.Resolve.{get_image_info, config_digest, image_id, look_up, local_resolve}

module _ (env : Env) (s0 : State env.World) where
  pub get_image_info-Outside : (ref : String) → Keeps (Outside s0) (get_image_info env ref)
  unfolding get_image_info
  get_image_info-Outside ref = search outside_rules depth 16

  config_digest-Outside : (i : Option StoreImage) → Keeps (Outside s0) (config_digest env i)
  unfolding config_digest
  config_digest-Outside none = search outside_rules
  config_digest-Outside (some i) = search outside_rules depth 8

  image_id-Outside : (ref : String) → Keeps (Outside s0) (image_id env ref)
  unfolding image_id
  image_id-Outside ref = search (outside_rules, config_digest-Outside) depth 12

  look_up-Outside : (o : Option String) → Keeps (Outside s0) (look_up env o)
  unfolding look_up
  look_up-Outside none = search outside_rules
  look_up-Outside (some id) = search outside_rules depth 8

  pub local_resolve-Outside : (ref : String) → Keeps (Outside s0) (local_resolve env ref)
  unfolding local_resolve
  local_resolve-Outside ref = search (outside_rules, image_id-Outside, look_up-Outside) depth 8
