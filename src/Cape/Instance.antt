-- ===== src/Cape/Instance.antt =====
-- src/inst_ctrl.c: creating the instance of a node, and asking for its state.
use pacemaker_cloud.Common.{Option, none, some, [], ◌∷◌, ◌++◌, String}
use pacemaker_cloud.Recover.Outside.{Platform}
use pacemaker_cloud.Cape.{Assembly, Cape}

-- What the cloud answers to the requests that are made while a handler runs, which are answered
-- before it goes on: the identifier of an image by its name, and that of a new instance by its
-- image; nothing, where the completion function is not called.
pub record Cloud : Type 0 where
  pub image : String → Option String
  pub instance_id : String → Option String

module _ {p : Platform} where
  abbrev pub image_id_get_completion : Option String → Assembly p → Assembly p
  image_id_get_completion none a = a
  image_id_get_completion (some id) a = record a { image_id = id }

  abbrev pub instance_create_completion : Option String → Assembly p → Assembly p
  instance_create_completion none a = a
  instance_create_completion (some id) a = record a { instance_id = id }

  -- What `instance_create` writes to the node.
  abbrev pub with_instance : Cloud → Assembly p → Assembly p
  with_instance cloud a =
      let a₁ = image_id_get_completion (cloud.image a.name) a in
      instance_create_completion (cloud.instance_id a₁.image_id) a₁

  -- The requests, and the job that asks for the state, which stands for the node by its name.
  abbrev pub instance_requested : Cloud → Assembly p → Cape p → Cape p
  instance_requested cloud a w = record w {
    created = w.created ++ a.name ∷ [];
    state_gets = w.state_gets ++ a.name ∷ [];
  }
