-- ===== src/Tests/Bundles.antt =====
-- The configuration of a container on a bridge with one data directory.
use ssam.Prelude.{◌≡◌, refl, true, none, some, [], ◌∷◌, ok}
use ssam.Paths.{join}
use ssam.Bundle.{
  network, other_type, bridge, Spec, ContainerBundleSpec, System, new, configure_network_namespace,
  retain_others, build_apparmor_profile, data_mounts_of,
}
use ssam.Bundle.Isolation.{IsIsolated, new-IsIsolated}

abbrev system : System
system = record {
  default_linux = record {
    seccomp = none;
    namespaces = some (
        record { typ = other_type "mount"; path = none }
        ∷ record { typ = network; path = none }
        ∷ []);
    cgroups_path = none;
  };
  tempdir = true;
  absolute = λ path. some path;
  verify_is_netns = λ path. true;
  apparmor_enabled = some true;
  get_profile = λ name. some none;
  save = λ spec. true;
}

-- The template asks for the network namespace of another process.
abbrev spec : ContainerBundleSpec
spec = record {
  oci_template = record {
    linux = some (record {
      seccomp = none;
      namespaces = some (
          record { typ = network; path = some "/proc/1/ns/net" }
          ∷ record { typ = other_type "pid"; path = none }
          ∷ []);
      cgroups_path = none;
    });
    process = none;
    root = none;
    mounts = some [];
  };
  seccomp_policy = none;
  mac_enabled = true;
  network_mode = bridge;
  cgroups_path = "/ssam";
  package_name = "nav";
  mount_point = "/run/ssam/nav";
  data_mounts = some (record { root = "/data/nav"; dirs = "/maps" ∷ [] });
  bridge_netns_path = some "/run/netns/nav";
}

abbrev saved : Spec
saved = record {
  linux = some (record {
    seccomp = none;
    namespaces = some (
        record { typ = other_type "pid"; path = none }
        ∷ record { typ = network; path = some "/run/netns/nav" }
        ∷ []);
    cgroups_path = some (join "/ssam" "nav.service/container");
  });
  process = some (some "container-default");
  root = some (record { path = "/run/ssam/nav"; readonly = true });
  mounts = some (data_mounts_of (some (record { root = "/data/nav"; dirs = "/maps" ∷ [] })));
}

configured : new system spec ≡ ok saved
unfolding new configure_network_namespace retain_others build_apparmor_profile
configured = refl

new-IsIsolated_example : IsIsolated system spec saved
new-IsIsolated_example = new-IsIsolated system spec saved configured
