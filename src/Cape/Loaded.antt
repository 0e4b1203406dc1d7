-- ===== src/Cape/Loaded.antt =====
-- What holds of every resource once the configuration is loaded, whatever the configuration: what the
-- rest of the daemon relies on.
use pacemaker_cloud.Common.{
  ℕ, ◌≡◌, refl, Bool, true, false, Option, none, some, [], ◌∷◌, String, ℤ, ok, All, After,
  After->>=, After-any, is_pos, ◌&&◌, Bool-cases, inl, inr, strcmp_eq, if◌then◌else◌,
}
use pacemaker_cloud.Common.Map.{QbMap, insert}
use pacemaker_cloud.Common.Infix.{infix-middle}
use pacemaker_cloud.Common.Text.{codes, is_infix}
use pacemaker_cloud.Common.Print.{join}
use pacemaker_cloud.Common.Xml.{
  XmlNode, XmlNodes, no_nodes, node, is_element, node_children, get_prop, first_that, named_element,
}
use pacemaker_cloud.Recover.Outside.{Platform}
use pacemaker_cloud.Recover.{nat}
use pacemaker_cloud.Recover.Init.{recover_init, initial}
use pacemaker_cloud.Recover.Total.{IsReady}
use pacemaker_cloud.Cape.{Resource, Assembly, Cape, deref}
use pacemaker_cloud.Cape.Status.{is_on}
use pacemaker_cloud.Cape.Instance.{
  Cloud, with_instance, image_id_get_completion, instance_create_completion,
}
use pacemaker_cloud.Cape.Config.{
  resource_name, is_there, Loading, put_resource, configure_resource_create, plain_resource_create,
  resource_create, resources_create, services_create, new_assembly, assembly_create,
  assemblies_create, load_children, parse_and_load, resource_add_ref_params,
}

All-insert {ℓ κ} :
    {V : Type ℓ} (P : String × V → Type κ) (key : String) (new : V) (m : QbMap V)
    → P (key, new)
    → All P m
    → All P (insert key new m)
unfolding insert
All-insert P key new [] h all = (h, tt)
All-insert P key new (entry ∷ rest) h (here, all) = elim (Bool-cases (strcmp_eq entry.0 key)) [
  | inl same ↦ rw same (h, all)
  | inr differ ↦ rw differ (here, All-insert P key new rest h all)
]

infix-resource_name :
    (prefix assembly : String) (name : Option String)
    → is_infix (codes assembly) (codes (resource_name prefix assembly name)) ≡ true
unfolding join
infix-resource_name prefix assembly name = infix-middle prefix assembly _

module _ (p : Platform) where
  initial-IsReady : (now : ℕ) (failures period : ℤ) → IsReady p (initial p now failures period)
  unfolding initial
  initial-IsReady now failures period = elim (Bool-cases (is_pos failures && is_pos period)) [
    | inl m ↦ rw m (inr (p.split_ctl (nat failures) (p.create now), refl))
    | inr m ↦ rw m (inl m)
  ]

  pub recover_init-IsReady :
      (now errno : ℕ) (failures period : Option String)
      → IsReady p (recover_init p now errno failures period).0
  unfolding recover_init
  recover_init-IsReady now errno failures period = initial-IsReady now _ _

  -- A resource in the map of the node of that name.
  pub record Fits (home : String) (entry : String × Resource p) : Type 0 where
    pub key_name : entry.0 ≡ entry.1.name
    pub assembly_name : entry.1.assembly ≡ home
    pub name_on : is_on home entry.1 ≡ true
    pub recover_ready : IsReady p entry.1.recover

  abbrev pub AllFit : Assembly p → Type 0
  AllFit a = All (Fits a.name) a.resource_map

  -- A node in the map of nodes.
  pub record AssemblyFits (entry : String × Assembly p) : Type 0 where
    pub key_name : entry.0 ≡ entry.1.name
    pub recover_ready : IsReady p entry.1.recover
    pub all_fit : AllFit entry.1

  abbrev pub LoadedWell : Cape p × ℕ → Type 0
  LoadedWell s = All AssemblyFits s.0.assembly_map

  abbrev SoundNode : Assembly p → Type 0
  SoundNode a = IsReady p a.recover × AllFit a

  abbrev Sound : Loading p → Type 0
  Sound l = SoundNode l.0

  put-SoundNode :
      (r : Resource p) (a : Assembly p)
      → Fits a.name (r.name, r)
      → SoundNode a
      → SoundNode (put_resource r a)
  put-SoundNode r a f (ready, all) = (ready, All-insert (Fits a.name) r.name r a.resource_map f all)

  module _ (pe : XmlNode) (now : ℕ) where
    configure-Sound :
        (rsc : XmlNode) (params : Option XmlNode) (l : Loading p)
        → Sound l
        → After Sound (configure_resource_create p pe now rsc params l)
    unfolding configure_resource_create
    configure-Sound rsc params (a, errno) h =
        After->>= (λ _. Unit {0}) Sound (resource_add_ref_params pe params _) _ (After-any _)
          λ refs _.
            put-SoundNode _ a
              (record {
                key_name = refl;
                assembly_name = refl;
                name_on = infix-resource_name "cfg_" a.name (get_prop "name" rsc);
                recover_ready = recover_init-IsReady now errno (some "-1") (some "-1");
              })
              h

    plain-Sound :
        (cur : XmlNode) (params : Option XmlNode) (l : Loading p)
        → Sound l
        → After Sound (plain_resource_create p pe now cur params l)
    unfolding plain_resource_create
    plain-Sound cur params (a, errno) h =
        After->>= (λ _. Unit {0}) Sound (deref (get_prop "type" cur)) _ (After-any _)
          λ type _.
            After->>= (λ _. Unit {0}) Sound (deref (get_prop "class" cur)) _ (After-any _)
              λ rclass _.
                After->>= (λ _. Unit {0}) Sound
                  (if strcmp_eq rclass "ocf"
                    then resource_add_ref_params pe params
                        (resource_name "rsc_" a.name (get_prop "name" cur))
                    else ok [])
                  _ (After-any _)
                  λ refs _.
                    put-SoundNode _ a
                      (record {
                        key_name = refl;
                        assembly_name = refl;
                        name_on = infix-resource_name "rsc_" a.name (get_prop "name" cur);
                        recover_ready = recover_init-IsReady now errno _ _;
                      })
                      h

    configure_if-Sound :
        (b : Bool) (rsc : XmlNode) (params : Option XmlNode) (l : Loading p)
        → Sound l
        → After Sound (if b then configure_resource_create p pe now rsc params l else ok l)
    configure_if-Sound true rsc params l h = configure-Sound rsc params l h
    configure_if-Sound false rsc params l h = h

    resource-Sound :
        (cur : XmlNode) (l : Loading p) → Sound l → After Sound (resource_create p pe now cur l)
    unfolding resource_create
    resource-Sound cur l h =
        let params = first_that (named_element "parameters") (node_children cur) in
        let executable = first_that (named_element "configure_executable") (node_children cur) in
        After->>= Sound Sound
          (if is_there executable then configure_resource_create p pe now cur params l else ok l)
          (plain_resource_create p pe now cur params)
          (configure_if-Sound (is_there executable) cur params l h) (plain-Sound cur params)

    resources-Sound :
        (nodes : XmlNodes) (l : Loading p)
        → Sound l
        → After Sound (resources_create p pe now nodes l)
    unfolding resources_create
    resources-Sound no_nodes l h = h
    resources-Sound (node cur rest) l h = elim (Bool-cases (is_element cur)) [
      | inl e ↦ rw e (
          After->>= Sound Sound (resource_create p pe now cur l) _ (resource-Sound cur l h)
            (resources-Sound rest))
      | inr e ↦ rw e (resources-Sound rest l h)
    ]

    services-Sound :
        (nodes : XmlNodes) (l : Loading p)
        → Sound l
        → After Sound (services_create p pe now nodes l)
    unfolding services_create
    services-Sound no_nodes l h = h
    services-Sound (node cur rest) l h = elim (Bool-cases (named_element "services" cur)) [
      | inl e ↦ rw e (
          After->>= Sound Sound (resources_create p pe now (node_children cur) l) _
            (resources-Sound (node_children cur) l h) (services-Sound rest))
      | inr e ↦ rw e (services-Sound rest l h)
    ]

    new-Sound : (cur : XmlNode) (errno : ℕ) → After Sound (new_assembly p pe now cur errno)
    unfolding new_assembly
    new-Sound cur errno =
        After->>= (λ _. Unit {0}) Sound (deref (get_prop "name" cur)) _ (After-any _)
          λ name _.
            After->>= (λ _. Unit {0}) Sound (deref (get_prop "uuid" cur)) _ (After-any _)
              λ uuid _. (recover_init-IsReady now errno _ _, tt)

    image-Sound :
        (id : Option String) (a : Assembly p) (errno : ℕ)
        → Sound (a, errno)
        → Sound (image_id_get_completion id a, errno)
    image-Sound none a errno h = h
    image-Sound (some id) a errno h = h

    instance-Sound :
        (id : Option String) (a : Assembly p) (errno : ℕ)
        → Sound (a, errno)
        → Sound (instance_create_completion id a, errno)
    instance-Sound none a errno h = h
    instance-Sound (some id) a errno h = h

    with_instance-Sound :
        (cloud : Cloud) (a : Assembly p) (errno : ℕ)
        → Sound (a, errno)
        → Sound (with_instance cloud a, errno)
    with_instance-Sound cloud a errno h = instance-Sound _ _ errno (image-Sound _ a errno h)

    module _ (cloud : Cloud) where
      create-LoadedWell :
          (cur : XmlNode) (s : Cape p × ℕ)
          → LoadedWell s
          → After LoadedWell (assembly_create p pe now cloud cur s)
      unfolding assembly_create
      create-LoadedWell cur (w, errno) h =
          After->>= Sound LoadedWell (new_assembly p pe now cur errno) _ (new-Sound cur errno)
            λ (a, errno₁) sound.
              After->>= Sound LoadedWell
                (services_create p pe now (node_children cur) (with_instance cloud a, errno₁)) _
                (services-Sound (node_children cur) _ (with_instance-Sound cloud a errno₁ sound))
                λ (a₁, errno₂) (ready, all).
                  All-insert AssemblyFits a₁.name a₁ w.assembly_map
                    (record { key_name = refl; recover_ready = ready; all_fit = all }) h

      assemblies-LoadedWell :
          (nodes : XmlNodes) (s : Cape p × ℕ)
          → LoadedWell s
          → After LoadedWell (assemblies_create p pe now cloud nodes s)
      unfolding assemblies_create
      assemblies-LoadedWell no_nodes s h = h
      assemblies-LoadedWell (node cur rest) s h = elim (Bool-cases (is_element cur)) [
        | inl e ↦ rw e (
            After->>= LoadedWell LoadedWell (assembly_create p pe now cloud cur s) _
              (create-LoadedWell cur s h) (assemblies-LoadedWell rest))
        | inr e ↦ rw e (assemblies-LoadedWell rest s h)
      ]

      children-LoadedWell :
          (nodes : XmlNodes) (s : Cape p × ℕ)
          → LoadedWell s
          → After LoadedWell (load_children p pe now cloud nodes s)
      unfolding load_children
      children-LoadedWell no_nodes s h = h
      children-LoadedWell (node cur rest) s h = elim (Bool-cases (named_element "assemblies" cur)) [
        | inl e ↦ rw e (
            After->>= LoadedWell LoadedWell (assemblies_create p pe now cloud (node_children cur) s)
              _ (assemblies-LoadedWell (node_children cur) s h) (children-LoadedWell rest))
        | inr e ↦ rw e (children-LoadedWell rest s h)
      ]

      -- Loading a configuration into the daemon, whatever it says, if it does not end the process:
      -- each node stands under its name; each resource on it stands under its own name, which contains
      -- that of its node, and points back to its node; and every node and resource that measures its
      -- failures has a stopwatch.
      pub parse_and_load-LoadedWell :
          (config : Option XmlNode) (s : Cape p × ℕ)
          → LoadedWell s
          → After LoadedWell (parse_and_load p pe now cloud config s)
      unfolding parse_and_load
      parse_and_load-LoadedWell config s h =
          After->>= (λ _. Unit {0}) LoadedWell (deref config) _ (After-any _)
            λ root _.
              After->>= (λ _. Unit {0}) LoadedWell (deref (get_prop "name" root)) _ (After-any _)
                λ _ _.
                  After->>= (λ _. Unit {0}) LoadedWell (deref (get_prop "uuid" root)) _
                    (After-any _) λ _ _. children-LoadedWell (node_children root) s h
