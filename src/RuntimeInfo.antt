-- ===== src/RuntimeInfo.antt =====
-- The types of controllers/runtime.go: what the templates in the manifests can refer to.
use special_resource_operato.Prelude.{String}
use special_resource_operato.Api.{SpecialResource, zero_resource}

pub record ResourceGroupName : Type 0 where
  pub driver_build : String
  pub driver_container : String
  pub runtime_enablement : String
  pub device_plugin : String
  pub device_monitoring : String
  pub device_grafana : String
  pub device_feature_discovery : String
  pub csi_driver : String

pub record ResourceStateName : Type 0 where
  pub driver_container : String
  pub runtime_enablement : String
  pub device_plugin : String
  pub device_monitoring : String

pub record ProxyConfiguration : Type 0 where
  pub http_proxy : String
  pub https_proxy : String
  pub no_proxy : String
  pub trusted_ca : String

pub record RuntimeInformation : Type 0 where
  pub operating_system_major : String
  pub operating_system_major_minor : String
  pub operating_system_decimal : String
  pub kernel_version : String
  pub cluster_version : String
  pub cluster_version_major_minor : String
  pub update_vendor : String
  pub push_secret_name : String
  pub os_image_url : String
  pub proxy : ProxyConfiguration
  pub group_name : ResourceGroupName
  pub state_name : ResourceStateName
  pub special_resource : SpecialResource

abbrev pub no_proxy_configuration : ProxyConfiguration
no_proxy_configuration = record {
  http_proxy = "";
  https_proxy = "";
  no_proxy = "";
  trusted_ca = "";
}

-- The value of `runInfo` when the process starts.
abbrev pub initial_run_info : RuntimeInformation
initial_run_info = record {
  operating_system_major = "";
  operating_system_major_minor = "";
  operating_system_decimal = "";
  kernel_version = "";
  cluster_version = "";
  cluster_version_major_minor = "";
  update_vendor = "";
  push_secret_name = "";
  os_image_url = "";
  proxy = no_proxy_configuration;
  group_name = record {
    driver_build = "driver-build";
    driver_container = "driver-container";
    runtime_enablement = "runtime-enablement";
    device_plugin = "device-plugin";
    device_monitoring = "device-monitoring";
    device_grafana = "device-grafana";
    device_feature_discovery = "device-feature-discovery";
    csi_driver = "csi-driver";
  };
  state_name = record {
    driver_container = "specialresource.openshift.io/driver-container";
    runtime_enablement = "specialresource.openshift.io/runtime-enablement";
    device_plugin = "specialresource.openshift.io/device-plugin";
    device_monitoring = "specialresource.openshift.io/device-monitoring";
  };
  special_resource = zero_resource;
}
