-- ===== src/Placement/Categories.antt =====
-- internal/placement/engine.go, `waterCategory` to `uncertaintyCategory`: the five vulnerability
-- categories of a field.
use pfas_load_control.Base.{
  Bool, true, false, not, ◌&&◌, ◌||◌, none, some, [], ◌∷◌, List, String, Text, is_empty, ltb,
  str_eq, if◌then◌else◌,
}
use pfas_load_control.Placement.Model.{
  Band, low, moderate, high, unknown, FieldInput, PlacementComponent, VulnerabilityCategory,
}
use pfas_load_control.Placement.Facts.{
  Library, Facts, at, components, all_facts_complete, contains_any, bool_fact, numeric_fact,
  positive_fact, within, range_maximum, exceeds_surface_slope_limit,
}
use pfas_load_control.Placement.Facts.Floats.{float_le}

abbrev pub config_version : String
config_version = "mi-fieldproof-placement-2026.08.5"

abbrev michigan_biosolids_url : String
michigan_biosolids_url =
    "https://www.michigan.gov/egle/faqs/water-quality-protection/land-application-of-biosolids"

abbrev epa_draft_guidance_url : String
epa_draft_guidance_url =
    "https://www.epa.gov/system/files/documents/2026-06/draft-guidance-reducing-risk-pfoa-pfos-biosolids.pdf"

abbrev epa_title : String
epa_title = "EPA draft guidance for reducing PFOA and PFOS risk in biosolids"

abbrev category :
    String
    → String
    → Band × String
    → List PlacementComponent
    → String
    → String
    → String
    → VulnerabilityCategory
category key label verdict components authority title source_url = record {
  key = key;
  label = label;
  band = verdict.0;
  explanation = verdict.1;
  components = components;
  authority_type = authority;
  source_title = title;
  source_url = source_url;
  config_version = config_version;
}

module _ (lib : Library) where
  -- A mapped floodplain, wetland or surface water on the field.
  unfoldable pub water_overlap : Facts → Bool
  water_overlap m =
      bool_fact lib (at m "within_floodplain_polygon")
      || bool_fact lib (at m "intersects_wetland")
      || bool_fact lib (at m "intersects_nhd_area")

  unfoldable pub water_verdict : Facts → Band × String
  unfolding water_overlap
  water_verdict m =
      if water_overlap m
      then (
        high,
        "The confirmed boundary intersects a mapped floodplain, wetland, or surface-water feature.",
      )
      else if within lib (at m "nearest_wetland_distance_m") 0x4059000000000000
          || positive_fact lib (at m "wetlands_within_100m_count")
          || positive_fact lib (at m "wetlands_within_500m_count")
      then (moderate, "Mapped wetlands are present near the confirmed boundary.")
      else if not (
          all_facts_complete m
            ("within_floodplain_polygon" ∷ "intersects_wetland" ∷ "intersects_nhd_area" ∷ []))
      then (unknown, "Water-receptor evidence is incomplete.")
      else (low, "No direct mapped water overlap or wetland proximity signal was returned.")

  unfoldable pub water_category : Facts → VulnerabilityCategory
  unfolding water_verdict
  water_category m =
      category "WATER_RECEPTORS" "Water receptors" (water_verdict m)
        (components m (
          "within_floodplain_polygon" ∷ "intersects_wetland" ∷ "nearest_wetland_distance_m"
          ∷ "wetlands_within_100m_count" ∷ "wetlands_within_500m_count" ∷ "intersects_nhd_area"
          ∷ "nearest_waterbody_name" ∷ []))
        "DRAFT_GUIDANCE" epa_title epa_draft_guidance_url

  -- The benchmarks are 0.762 m (30 inches) and 3 m.
  unfoldable pub subsurface_verdict : Facts → Band × String
  subsurface_verdict m =
      elim (numeric_fact lib (at m "nearest_groundwater_well_depth_to_water_m")) [
        | none ↦ (unknown, "No usable groundwater-depth indicator was available for comparison.")
        | some depth ↦
            if float_le depth 0x3fe8624dd2f1a9fc
            then (
              high,
              "The nearest measured groundwater-depth indicator is at or below Michigan's 30-inch site-separation benchmark; site-specific confirmation is still required.",
            )
            else if float_le depth 0x4008000000000000
            then (
              moderate,
              "The nearest measured groundwater-depth indicator is relatively shallow and merits comparison with the approved site record.",
            )
            else (
              low,
              "The nearest measured groundwater-depth indicator is deeper than three meters; this is supporting evidence, not a site-specific groundwater determination.",
            )
      ]

  unfoldable pub subsurface_category : Facts → VulnerabilityCategory
  unfolding subsurface_verdict
  subsurface_category m =
      category "SUBSURFACE_MOBILITY" "Subsurface mobility" (subsurface_verdict m)
        (components m (
          "nearest_groundwater_well_depth_to_water_m" ∷ "soil_drainage_class"
          ∷ "soil_hydrologic_group" ∷ "soil_ponding_frequency_class"
          ∷ "soil_restrictive_layer_depth_cm" ∷ "soil_available_water_capacity" ∷ []))
        "RULE_AND_GUIDANCE"
        "Michigan Part 24 management practices and EPA draft PFAS biosolids guidance"
        michigan_biosolids_url

  slope_ok : Facts → Bool
  slope_ok m = elim (range_maximum lib (at m "slope_degrees")) [ none ↦ false | some x ↦ true ]

  unfoldable pub surface_verdict : Facts → Band × String
  unfolding water_overlap slope_ok
  surface_verdict m =
      if water_overlap m || (slope_ok m && exceeds_surface_slope_limit lib m)
      then (
        high,
        "The boundary has a mapped water/flood overlap or a sampled slope above Michigan's default six-percent surface-application limit.",
      )
      else if not (
          all_facts_complete m (
            "slope_degrees" ∷ "within_floodplain_polygon" ∷ "intersects_wetland"
            ∷ "intersects_nhd_area" ∷ []))
      then (unknown, "Surface-transport evidence is incomplete.")
      else (low, "No direct mapped water overlap or default surface-slope concern was returned.")

  unfoldable pub surface_category : Facts → VulnerabilityCategory
  unfolding surface_verdict
  surface_category m =
      category "SURFACE_TRANSPORT" "Surface transport" (surface_verdict m)
        (components m (
          "slope_degrees" ∷ "soil_erodibility_k_factor" ∷ "within_floodplain_polygon"
          ∷ "intersects_wetland" ∷ "intersects_nhd_area" ∷ []))
        "RULE" "Michigan biosolids management practices" michigan_biosolids_url

  unfoldable pub human_verdict : Facts → Text → Band × String
  human_verdict m crop_or_use =
      let crop = lib.to_lower crop_or_use in
      if contains_any crop (
        "leafy" ∷ "lettuce" ∷ "spinach" ∷ "root vegetable" ∷ "pasture" ∷ "grazing" ∷ "dairy"
        ∷ "animal feed" ∷ "poultry" ∷ "hens" ∷ [])
      then (
        high,
        "The supplied use matches an agricultural practice EPA's draft guidance identifies as having higher potential human exposure.",
      )
      else if contains_any crop ("grain" ∷ "fiber" ∷ "ethanol" ∷ "wheat" ∷ "corn for ethanol" ∷ [])
      then (low, "The supplied use matches a lower-exposure crop example in EPA's draft guidance.")
      else if not (is_empty crop)
      then (
        moderate, "The supplied use is not one of EPA's named lower- or higher-exposure examples.",
      )
      else if positive_fact lib (at m "housing_units_within_1km")
      then (moderate, "Nearby housing is present, but the intended field use remains unknown.")
      else (
        unknown,
        "The intended crop or use is missing, so human and food exposure cannot be compared completely.",
      )

  unfoldable pub human_category : Facts → Text → VulnerabilityCategory
  unfolding human_verdict
  human_category m crop_or_use =
      category "HUMAN_FOOD_EXPOSURE" "Human and food exposure" (human_verdict m crop_or_use)
        (components m (
          "housing_units_within_1km" ∷ "housing_units_density_per_km2" ∷ "nearest_school_distance_m"
          ∷ "cdl_class" ∷ "is_cultivated" ∷ "dominant_crop_5y" ∷ []))
        "DRAFT_GUIDANCE" epa_title epa_draft_guidance_url

  unfoldable pub uncertainty_verdict : FieldInput → Band × String
  uncertainty_verdict f =
      if str_eq f.physical_evaluation_id "" || str_eq f.physical_status ""
      then (unknown, "No physical-evidence record exists for this boundary.")
      else if not (str_eq f.physical_status "SUCCEEDED") || ltb 0 f.physical_critical_gaps
      then (high, "Critical physical evidence is incomplete or requires review.")
      else if ltb 0 f.physical_other_gaps || not f.supplemental_available
      then (
        moderate,
        "Critical facts are complete, but one or more supporting sources are unavailable.",
      )
      else (
        low, "Critical field facts are complete and adjacent evidence sources returned records.",
      )

  unfoldable pub uncertainty_category : FieldInput → VulnerabilityCategory
  unfolding uncertainty_verdict
  uncertainty_category f =
      category "DATA_UNCERTAINTY" "Evidence uncertainty" (uncertainty_verdict f)
        (record {
          fact_name = "physical_evaluation";
          label = "Physical evidence status";
          state = "";
          value = lib.marshal_string f.physical_status;
          unit = "";
          source = "Stored field evaluation";
          source_url = "";
        }
          ∷ [])
        "PRODUCT_CONFIG" "FieldProof evidence-completeness contract" ""
