-- ===== src/VmConfig/Network.antt =====
-- runtime/helpers.go: `networkConfigFromProto`. The package net is an argument.
use abschlussarbeit.Common.{Bool, Option, none, some, List, [], ◌∷◌, Result, ok, err, wrap}
use abschlussarbeit.Common.Bytes.{Bytes}
use abschlussarbeit.Proto.{IpConfig, StaticConfig, CniConfig, NetworkInterface}
use abschlussarbeit.RateLimit.{BucketBuilder, LimiterModel, rate_limiter_from_proto}

-- The package net: addresses, masks, `ParseCIDR`, and `ParseIP`, which may return nil.
pub record Net : Type 1 where
  pub Ip : Type 0
  pub Mask : Type 0
  pub parse_cidr : Bytes → Result (Ip × Mask)
  pub parse_ip : Bytes → Option Ip

-- The SDK's `IPConfiguration`, `StaticNetworkConfiguration`, `CNIConfiguration` and
-- `NetworkInterface`.
pub record IpModel (Ip Mask : Type 0) : Type 0 where
  pub ip_addr : Ip × Mask
  pub gateway : Option Ip
  pub nameservers : List Bytes

pub record StaticModel (Ip Mask : Type 0) : Type 0 where
  pub host_dev_name : Bytes
  pub mac_address : Bytes
  pub ip_configuration : Option (IpModel Ip Mask)

pub record CniModel : Type 0 where
  pub network_name : Bytes
  pub if_name : Bytes
  pub bin_path : List Bytes
  pub conf_dir : Bytes
  pub cache_dir : Bytes
  pub args : List (Bytes × Bytes)

pub record InterfaceModel (Ip Mask Bucket : Type 0) : Type 0 where
  pub allow_mmds : Bool
  pub in_rate_limiter : Option (LimiterModel Bucket)
  pub out_rate_limiter : Option (LimiterModel Bucket)
  pub static_configuration : Option (StaticModel Ip Mask)
  pub cni_configuration : Option CniModel

unfoldable pub cni_of : Option CniConfig → Option CniModel
cni_of none = none
cni_of (some c) = some (record {
  network_name = c.network_name;
  if_name = c.interface_name;
  bin_path = c.bin_path;
  conf_dir = c.conf_dir;
  cache_dir = c.cache_dir;
  args = c.args;
})

module _ (net : Net) where
  open net use {Ip, Mask, parse_cidr, parse_ip}

  abbrev with_cidr : IpConfig → Result (Ip × Mask) → Result (IpModel Ip Mask)
  with_cidr c (err e) = err (wrap "failed to parse CIDR from %q" e)
  with_cidr c (ok addr) =
      ok (record { ip_addr = addr; gateway = parse_ip c.gateway_addr; nameservers = c.nameservers })

  unfoldable pub ip_of : IpConfig → Result (IpModel Ip Mask)
  ip_of c = with_cidr c (parse_cidr c.primary_addr)

  abbrev with_ip : StaticConfig → Result (IpModel Ip Mask) → Result (Option (StaticModel Ip Mask))
  with_ip c (err e) = err e
  with_ip c (ok ip) = ok (
      some (record {
        host_dev_name = c.host_dev_name;
        mac_address = c.mac_address;
        ip_configuration = some ip;
      }))

  abbrev static_for : StaticConfig → Option IpConfig → Result (Option (StaticModel Ip Mask))
  static_for c none = ok (
      some (record {
        host_dev_name = c.host_dev_name;
        mac_address = c.mac_address;
        ip_configuration = none;
      }))
  static_for c (some ip) = with_ip c (ip_of ip)

  unfoldable pub static_of : Option StaticConfig → Result (Option (StaticModel Ip Mask))
  unfolding ip_of
  static_of none = ok none
  static_of (some c) = static_for c c.ip_config

  module _ (sdk : BucketBuilder) where
    open sdk use {Bucket}

    abbrev with_static :
        NetworkInterface
        → Result (Option (StaticModel Ip Mask))
        → Result (InterfaceModel Ip Mask Bucket)
    with_static nw (err e) = err e
    with_static nw (ok conf) = ok (record {
      allow_mmds = nw.allow_mmds;
      in_rate_limiter = rate_limiter_from_proto sdk nw.in_rate_limiter;
      out_rate_limiter = rate_limiter_from_proto sdk nw.out_rate_limiter;
      static_configuration = conf;
      cni_configuration = cni_of nw.cni_config;
    })

    -- `networkConfigFromProto`
    unfoldable pub network_config_from_proto :
        NetworkInterface → Result (InterfaceModel Ip Mask Bucket)
    unfolding static_of cni_of
    network_config_from_proto nw = with_static nw (static_of nw.static_config)

    abbrev and_rest :
        InterfaceModel Ip Mask Bucket
        → Result (List (InterfaceModel Ip Mask Bucket))
        → Result (List (InterfaceModel Ip Mask Bucket))
    and_rest i (ok is) = ok (i ∷ is)
    and_rest i (err e) = err e

    abbrev after_interface :
        Result (List (InterfaceModel Ip Mask Bucket))
        → Result (InterfaceModel Ip Mask Bucket)
        → Result (List (InterfaceModel Ip Mask Bucket))
    after_interface rest (ok i) = and_rest i rest
    after_interface rest (err e) = err (wrap "failed to convert network config %+v" e)

    -- The loop of `buildVMConfiguration` over the interfaces.
    unfoldable pub network_configs :
        List NetworkInterface → Result (List (InterfaceModel Ip Mask Bucket))
    network_configs [] = ok []
    network_configs (ni ∷ nis) =
        let rest = network_configs nis in after_interface rest (network_config_from_proto ni)
