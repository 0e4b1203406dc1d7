-- ===== src/Cape/Named.antt =====
-- Which nodes are there once the configuration is loaded: exactly those that it names.
use pacemaker_cloud.Common.{
  ℕ, ◌≡◌, refl, ap, sym, ◌∙◌, Bool, true, false, ◌&&◌, ◌||◌, Option, none, some, [], String, ok,
  After, After->>=, After-step, Bool-cases, inl, inr, strcmp_eq, if◌then◌else◌,
}
use pacemaker_cloud.Common.Map.{lookup, lookup-insert}
use pacemaker_cloud.Common.Xml.{
  XmlNode, XmlNodes, no_nodes, node, is_element, node_children, get_prop, first_that, named_element,
}
use pacemaker_cloud.Recover.Outside.{Platform}
use pacemaker_cloud.Cape.{Assembly, Cape, deref}
use pacemaker_cloud.Cape.Instance.{
  Cloud, with_instance, image_id_get_completion, instance_create_completion,
}
use pacemaker_cloud.Cape.Config.{
  resource_name, is_there, Loading, configure_resource_create, plain_resource_create,
  resource_create, resources_create, services_create, new_assembly, assembly_create,
  assemblies_create, load_children, parse_and_load, resource_add_ref_params,
}

abbrev is_name : String → Option String → Bool
is_name key none = false
is_name key (some name) = strcmp_eq name key

-- Whether one of some elements has that name.
abbrev pub names_element : String → XmlNodes → Bool
names_element key no_nodes = false
names_element key (node cur rest) =
    (is_element cur && is_name key (get_prop "name" cur)) || names_element key rest

-- Whether a node of that name stands in one of the "assemblies" among some elements.
abbrev pub names_node : String → XmlNodes → Bool
names_node key no_nodes = false
names_node key (node cur rest) =
    (named_element "assemblies" cur && names_element key (node_children cur)) || names_node key rest

abbrev pub is_some {ℓ} : {A : Type ℓ} → Option A → Bool
is_some none = false
is_some (some a) = true

is_some-if {ℓ} :
    {A : Type ℓ} (b : Bool) (new : A) (old : Option A)
    → is_some (if b then some new else old) ≡ (is_some old || b)
is_some-if true new none = refl
is_some-if true new (some a) = refl
is_some-if false new none = refl
is_some-if false new (some a) = refl

or_assoc : (a b c : Bool) → ((a || b) || c) ≡ (a || (b || c))
or_assoc true b c = refl
or_assoc false b c = refl

or_false : (a : Bool) → a ≡ (a || false)
or_false true = refl
or_false false = refl

deref-some {ℓ} : {A : Type ℓ} (x : Option A) → After (λ a. x ≡ some a) (deref x)
deref-some none = tt
deref-some (some a) = refl

module _ (p : Platform) where
  abbrev Called : String → Loading p → Type 0
  Called name l = l.0.name ≡ name

  -- A node of that name is in the map exactly if b.
  abbrev Holds : String → Bool → Cape p × ℕ → Type 0
  Holds key b s = is_some (lookup key s.0.assembly_map) ≡ b

  module _ (pe : XmlNode) (now : ℕ) (name : String) where
    configure-Called :
        (rsc : XmlNode) (params : Option XmlNode) (l : Loading p)
        → Called name l
        → After (Called name) (configure_resource_create p pe now rsc params l)
    unfolding configure_resource_create
    configure-Called rsc params (a, errno) h =
        After-step (Called name) (resource_add_ref_params pe params _) _ λ refs. h

    plain-Called :
        (cur : XmlNode) (params : Option XmlNode) (l : Loading p)
        → Called name l
        → After (Called name) (plain_resource_create p pe now cur params l)
    unfolding plain_resource_create
    plain-Called cur params (a, errno) h =
        After-step (Called name) (deref (get_prop "type" cur)) _ λ type.
          After-step (Called name) (deref (get_prop "class" cur)) _ λ rclass.
            After-step (Called name)
              (if strcmp_eq rclass "ocf"
                then resource_add_ref_params pe params
                    (resource_name "rsc_" a.name (get_prop "name" cur))
                else ok [])
              _ λ refs. h

    configure_if-Called :
        (b : Bool) (rsc : XmlNode) (params : Option XmlNode) (l : Loading p)
        → Called name l
        → After (Called name) (if b then configure_resource_create p pe now rsc params l else ok l)
    configure_if-Called true rsc params l h = configure-Called rsc params l h
    configure_if-Called false rsc params l h = h

    resource-Called :
        (cur : XmlNode) (l : Loading p)
        → Called name l
        → After (Called name) (resource_create p pe now cur l)
    unfolding resource_create
    resource-Called cur l h =
        let params = first_that (named_element "parameters") (node_children cur) in
        let executable = first_that (named_element "configure_executable") (node_children cur) in
        After->>= (Called name) (Called name)
          (if is_there executable then configure_resource_create p pe now cur params l else ok l)
          (plain_resource_create p pe now cur params)
          (configure_if-Called (is_there executable) cur params l h) (plain-Called cur params)

    resources-Called :
        (nodes : XmlNodes) (l : Loading p)
        → Called name l
        → After (Called name) (resources_create p pe now nodes l)
    unfolding resources_create
    resources-Called no_nodes l h = h
    resources-Called (node cur rest) l h = elim (Bool-cases (is_element cur)) [
      | inl e ↦ rw e (
          After->>= (Called name) (Called name) (resource_create p pe now cur l) _
            (resource-Called cur l h) (resources-Called rest))
      | inr e ↦ rw e (resources-Called rest l h)
    ]

    services-Called :
        (nodes : XmlNodes) (l : Loading p)
        → Called name l
        → After (Called name) (services_create p pe now nodes l)
    unfolding services_create
    services-Called no_nodes l h = h
    services-Called (node cur rest) l h = elim (Bool-cases (named_element "services" cur)) [
      | inl e ↦ rw e (
          After->>= (Called name) (Called name) (resources_create p pe now (node_children cur) l) _
            (resources-Called (node_children cur) l h) (services-Called rest))
      | inr e ↦ rw e (services-Called rest l h)
    ]

  image-name : (id : Option String) (a : Assembly p) → (image_id_get_completion id a).name ≡ a.name
  image-name none a = refl
  image-name (some id) a = refl

  instance-name :
      (id : Option String) (a : Assembly p) → (instance_create_completion id a).name ≡ a.name
  instance-name none a = refl
  instance-name (some id) a = refl

  with_instance-name : (cloud : Cloud) (a : Assembly p) → (with_instance cloud a).name ≡ a.name
  with_instance-name cloud a = instance-name _ _ ∙ image-name _ a

  module _ (pe : XmlNode) (now : ℕ) where
    new-Called :
        (cur : XmlNode) (errno : ℕ)
        → After (λ l. get_prop "name" cur ≡ some l.0.name) (new_assembly p pe now cur errno)
    unfolding new_assembly
    new-Called cur errno =
        After->>= (λ name. get_prop "name" cur ≡ some name)
          (λ l. get_prop "name" cur ≡ some l.0.name) (deref (get_prop "name" cur)) _
          (deref-some (get_prop "name" cur))
          λ name e.
            After-step (λ l. get_prop "name" cur ≡ some l.0.name) (deref (get_prop "uuid" cur)) _
              λ uuid. e

    module _ (cloud : Cloud) (key : String) where
      create-Holds :
          (cur : XmlNode) (s : Cape p × ℕ) (b : Bool)
          → Holds key b s
          → After
              (Holds key (b || is_name key (get_prop "name" cur)))
              (assembly_create p pe now cloud cur s)
      unfolding assembly_create
      create-Holds cur (w, errno) b h =
          let Q = Holds key (b || is_name key (get_prop "name" cur)) in
          After->>= (λ l. get_prop "name" cur ≡ some l.0.name) Q (new_assembly p pe now cur errno) _
            (new-Called cur errno)
            λ (a, errno₁) named.
              After->>= (Called a.name) Q
                (services_create p pe now (node_children cur) (with_instance cloud a, errno₁)) _
                (services-Called pe now a.name (node_children cur) _ (with_instance-name cloud a))
                λ (a₁, errno₂) same.
                  ap is_some (lookup-insert a₁.name key a₁ w.assembly_map)
                  ∙ is_some-if (strcmp_eq a₁.name key) a₁ (lookup key w.assembly_map)
                  ∙ ap (λ c. c || strcmp_eq a₁.name key) h
                  ∙ ap (λ n. b || strcmp_eq n key) same
                  ∙ ap (λ n. b || is_name key n) (sym named)

      assemblies-Holds :
          (nodes : XmlNodes) (s : Cape p × ℕ) (b : Bool)
          → Holds key b s
          → After
              (Holds key (b || names_element key nodes))
              (assemblies_create p pe now cloud nodes s)
      unfolding assemblies_create
      assemblies-Holds no_nodes s b h = h ∙ or_false b
      assemblies-Holds (node cur rest) s b h =
          let here = is_name key (get_prop "name" cur) in
          elim (Bool-cases (is_element cur)) [
            | inl e ↦
                rw (e, ← or_assoc b here (names_element key rest))
                  (After->>= (Holds key (b || here))
                    (Holds key ((b || here) || names_element key rest))
                    (assembly_create p pe now cloud cur s) _ (create-Holds cur s b h)
                    λ s₁ h₁. assemblies-Holds rest s₁ (b || here) h₁)
            | inr e ↦ rw e (assemblies-Holds rest s b h)
          ]

      children-Holds :
          (nodes : XmlNodes) (s : Cape p × ℕ) (b : Bool)
          → Holds key b s
          → After (Holds key (b || names_node key nodes)) (load_children p pe now cloud nodes s)
      unfolding load_children
      children-Holds no_nodes s b h = h ∙ or_false b
      children-Holds (node cur rest) s b h =
          let here = names_element key (node_children cur) in
          elim (Bool-cases (named_element "assemblies" cur)) [
            | inl e ↦
                rw (e, ← or_assoc b here (names_node key rest))
                  (After->>= (Holds key (b || here))
                    (Holds key ((b || here) || names_node key rest))
                    (assemblies_create p pe now cloud (node_children cur) s) _
                    (assemblies-Holds (node_children cur) s b h)
                    λ s₁ h₁. children-Holds rest s₁ (b || here) h₁)
            | inr e ↦ rw e (children-Holds rest s b h)
          ]

      -- Loading a configuration, if it does not end the process: a node is in the map afterwards exactly
      -- if it was there before, or an element of that name stands in an element "assemblies" of the
      -- configuration.
      pub parse_and_load-names_node :
          (root : XmlNode) (s : Cape p × ℕ)
          → After
              (λ s'.
                is_some (lookup key s'.0.assembly_map)
                ≡ (is_some (lookup key s.0.assembly_map) || names_node key (node_children root)))
              (parse_and_load p pe now cloud (some root) s)
      unfolding parse_and_load
      parse_and_load-names_node root s =
          let Q =
            Holds key
              (is_some (lookup key s.0.assembly_map) || names_node key (node_children root)) in
          After-step Q (deref (get_prop "name" root)) _ λ name.
            After-step Q (deref (get_prop "uuid" root)) _
              λ uuid. children-Holds (node_children root) s _ refl
