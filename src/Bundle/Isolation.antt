-- ===== src/Bundle/Isolation.antt =====
-- What a container's configuration lets it see.
use ssam.Prelude
use ssam.Prelude.{
  ◌≡◌, subst, refl, sym, ap, ◌∙◌, Bool, true, false, Option, none, some, List, [], ◌∷◌, String,
  Result, ok, err, arith, inl, inr, Bool-cases, Option-cases, Result-cases, if◌then◌else◌, ensure,
  ok_or, ◌>>=◌,
}
use ssam.Paths.{join, is_safe_relative_path}
use ssam.Volume.Directory.{strip_root}
use ssam.Volume.Directory.Contained.{IsBelow, join-IsBelow}
use ssam.Bundle.{
  NetworkMode, host, no_network, bridge, netns, LinuxNamespace, Mount, Spec, DataMounts,
  ContainerBundleSpec, System, BundleError, is_network, retain_others, network_namespace,
  added_namespace, configure_network_namespace, make_bind_mounts, append_mounts, data_mounts_of,
  template_namespaces, new,
}

ok_inj : {A : Type 0} {a b : A} → ◌≡◌ {A = Result BundleError A} (ok a) (ok b) → a ≡ b
ok_inj e = cc

saved_inv :
    (b : Bool) (t : BundleError) (made : Spec) {saved : Spec}
    → (ensure b t >>= λ _. ok made) ≡ ok saved
    → made ≡ saved
saved_inv true t made e = ok_inj e
saved_inv false t made e = cc

-- The network namespaces of a list.
abbrev pub networks : List LinuxNamespace → List LinuxNamespace
networks [] = []
networks (ns ∷ nss) = if is_network ns then ns ∷ networks nss else networks nss

-- What a mode stands for.
abbrev pub Grants : NetworkMode → Option String → List LinuxNamespace → Type 0
Grants host bridge_path nss = nss ≡ []
Grants no_network bridge_path nss = nss ≡ network_namespace none
Grants bridge bridge_path nss =
    (path : String) × (bridge_path ≡ some path) × (nss ≡ network_namespace (some path))
Grants (netns path) bridge_path nss = nss ≡ network_namespace (some path)

networks-retain :
    (nss more : List LinuxNamespace)
    → networks (Prelude.◌++◌ (retain_others nss) more) ≡ networks more
unfolding retain_others
networks-retain [] more = refl
networks-retain (ns ∷ nss) more = elim (Bool-cases (is_network ns)) [
  | inl dropped ↦ ground (arith, networks-retain nss more)
  | inr kept ↦ ground (arith, networks-retain nss more)
]

added_namespace-Grants :
    (system : System) (mode : NetworkMode) (bridge_path : Option String)
    {more : List LinuxNamespace}
    → added_namespace system mode bridge_path ≡ ok more
    → Grants mode bridge_path (networks more)
unfolding added_namespace
added_namespace-Grants system host bridge_path e = ground arith
added_namespace-Grants system no_network bridge_path e = ground arith
added_namespace-Grants system bridge none e = absurd (cc)
added_namespace-Grants system bridge (some path) e = (path, refl, ground arith)
added_namespace-Grants system (netns path) bridge_path e = ground arith

-- Every mount leads below the data root.
abbrev pub AllBelow : String → List Mount → Type 0
AllBelow root [] = Unit {0}
AllBelow root (m ∷ ms) =
    ((source : String) × (m.source ≡ some source) × IsBelow root source) × AllBelow root ms

make_bind_mounts-AllBelow :
    (root : String) (dirs : List String) {ms : List Mount}
    → make_bind_mounts root dirs ≡ ok ms
    → AllBelow root ms
unfolding make_bind_mounts
make_bind_mounts-AllBelow root [] {ms} e =
    let same : [] ≡ ms = ground arith in subst (AllBelow root) same tt
make_bind_mounts-AllBelow root (dir ∷ dirs) {ms} e =
    elim (Bool-cases (is_safe_relative_path (strip_root dir))) [
      | inr unsafe ↦ absurd (let f = rw unsafe at e in cc)
      | inl safe ↦ elim (Result-cases (make_bind_mounts root dirs)) [
        | inr (t, bad) ↦ absurd (let f = rw (safe, bad) at e in cc)
        | inl (rest, made) ↦
            let f = rw (safe, made) at e in
            subst (AllBelow root) (ok_inj f) (
              (join root (strip_root dir), refl, join-IsBelow root (strip_root dir) safe),
              make_bind_mounts-AllBelow root dirs made,
            )
      ]
    ]

-- Every mount of the data directory leads below its root.
abbrev pub DataBelow : Option DataMounts → Type 0
DataBelow none = data_mounts_of none ≡ []
DataBelow (some d) = AllBelow d.root (data_mounts_of (some d))

data_mounts_of-Below : (d : Option DataMounts) → DataBelow d
data_mounts_of-Below none = refl
data_mounts_of-Below (some d) = elim (Result-cases (make_bind_mounts d.root d.dirs)) [
  | inl (ms, made) ↦ rw made (make_bind_mounts-AllBelow d.root d.dirs made)
  | inr (t, bad) ↦ rw bad tt
]

configure_network_namespace-Grants :
    (system : System) (nss : List LinuxNamespace) (mode : NetworkMode) (bridge_path : Option String)
    {made : List LinuxNamespace}
    → configure_network_namespace system nss mode bridge_path ≡ ok made
    → Grants mode bridge_path (networks made)
unfolding configure_network_namespace
configure_network_namespace-Grants system nss mode bridge_path e =
    elim (Result-cases (added_namespace system mode bridge_path)) [
      | inr (t, bad) ↦ absurd (let f = rw bad at e in cc)
      | inl (more, added) ↦
          let f = rw added at e in
          subst (λ l. Grants mode bridge_path (networks l)) (ok_inj f)
            (subst (Grants mode bridge_path) (sym (networks-retain nss more))
              (added_namespace-Grants system mode bridge_path added))
    ]

-- What a container gets to see.
pub record IsIsolated (system : System) (spec : ContainerBundleSpec) (saved : Spec) : Type 0 where
  pub namespaces_of_mode :
      Grants spec.network_mode spec.bridge_netns_path
        (networks (template_namespaces system saved.linux))
  pub rootfs_path : String
  pub absolute_root : system.absolute spec.mount_point ≡ some rootfs_path
  pub readonly_root : saved.root ≡ some (record { path = rootfs_path; readonly = true })
  pub mounts_added :
      saved.mounts ≡ append_mounts spec.oci_template.mounts (data_mounts_of spec.data_mounts)
  pub data_below : DataBelow spec.data_mounts

-- Whatever the template of a package holds, a configuration that is saved isolates the container: its
-- only network namespace is the one that the network mode stands for, none for the host's; its root
-- is the package's absolute mount point, read only; and each mount that is added to those of the
-- template has its source below the package's data directory.
pub new-IsIsolated :
    (system : System) (spec : ContainerBundleSpec) (saved : Spec)
    → new system spec ≡ ok saved
    → IsIsolated system spec saved
unfolding new configure_network_namespace
new-IsIsolated system spec saved e = elim (Bool-cases system.tempdir) [
  | inr bad ↦ absurd (let f = rw bad at e in cc)
  | inl tempdir ↦ elim (Option-cases (system.absolute spec.mount_point)) [
    | inl bad ↦ absurd (let f = rw (tempdir, bad) at e in cc)
    | inr (rootfs, at) ↦
        elim (Result-cases (
          configure_network_namespace system (template_namespaces system spec.oci_template.linux)
            spec.network_mode spec.bridge_netns_path)) [
              | inr (t, bad) ↦ absurd (let f = rw (tempdir, at, bad) at e in cc)
              | inl (nss, made) ↦
                  let f = rw (tempdir, at, made) at e in
                  subst (IsIsolated system spec) (saved_inv _ _ _ f) (record {
                    namespaces_of_mode =
                        configure_network_namespace-Grants system
                          (template_namespaces system spec.oci_template.linux) spec.network_mode
                          spec.bridge_netns_path made;
                    rootfs_path = rootfs;
                    absolute_root = at;
                    readonly_root = refl;
                    mounts_added = refl;
                    data_below = data_mounts_of-Below spec.data_mounts;
                  })
            ]
  ]
]
