-- ===== src/Cloud/FeatureCode.antt =====
-- custom_components/ezviz_hp7/api.py: the feature code of an installation, which `_apply_feature_code`
-- writes into the module of the cloud library; that module is one for all entries.
use ezviz_hp.Base.{[], ◌∷◌}
use ezviz_hp.Base.Bytes.{Bytes}

-- `FEATURE_CODE` and `REQUEST_HEADER["featureCode"]` of the library
pub record Module : Type 0 where
  pub feature_code : Bytes
  pub request_header : Bytes

-- `_apply_feature_code`, where the header can be patched
unfoldable pub apply_feature_code : Bytes → Module → Module
apply_feature_code [] m = m
apply_feature_code (c ∷ cs) m = record { feature_code = c ∷ cs; request_header = c ∷ cs }
