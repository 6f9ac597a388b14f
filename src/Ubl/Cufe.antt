-- ===== src/Ubl/Cufe.antt =====
-- ubl-engine/src/cufe.rs: the unique codes. An amount comes as the text of its two decimals, as
-- `format_amount` writes it; `sha384` gives the hex digits of SHA-384.
use Prim.Native.String.{◌++◌}
use dian_service.Base.{String}

module _ (sha384 : String → String) where
  unfoldable pub calculate_cufe_cude :
      (num_fac fec_fac hor_fac val_fac cod_imp1 val_imp1 cod_imp2 val_imp2 cod_imp3 val_imp3
        val_tol_fac nit_ofe num_adq key tipo_ambiente : String)
      → String
  calculate_cufe_cude num_fac fec_fac hor_fac val_fac cod_imp1 val_imp1 cod_imp2 val_imp2 cod_imp3
        val_imp3 val_tol_fac nit_ofe num_adq key tipo_ambiente =
      sha384 (
        num_fac ++ fec_fac ++ hor_fac ++ val_fac ++ cod_imp1 ++ val_imp1 ++ cod_imp2 ++ val_imp2
        ++ cod_imp3 ++ val_imp3 ++ val_tol_fac ++ nit_ofe ++ num_adq ++ key ++ tipo_ambiente)

  unfoldable pub calculate_cude_event :
      (num_documento_event fec_event hor_event nit_emisor_event num_receptor_event software_pin
        tipo_ambiente : String)
      → String
  calculate_cude_event num_documento_event fec_event hor_event nit_emisor_event num_receptor_event
        software_pin tipo_ambiente =
      sha384 (
        num_documento_event ++ fec_event ++ hor_event ++ "0.00010.000.00" ++ nit_emisor_event
        ++ num_receptor_event ++ software_pin ++ tipo_ambiente)

  unfoldable pub calculate_cune :
      (num_ne fec_ne hor_ne val_dev val_ded val_tol_ne nit_ne doc_emp tipo_xml software_pin
        tipo_ambiente : String)
      → String
  calculate_cune num_ne fec_ne hor_ne val_dev val_ded val_tol_ne nit_ne doc_emp tipo_xml
        software_pin tipo_ambiente =
      sha384 (
        num_ne ++ fec_ne ++ hor_ne ++ val_dev ++ val_ded ++ val_tol_ne ++ nit_ne ++ doc_emp
        ++ tipo_xml ++ software_pin ++ tipo_ambiente)

  unfoldable pub calculate_cuds :
      (num_ds fec_ds hor_ds val_ds cod_imp val_imp val_tot nit_ofe num_adq software_pin
        tipo_ambiente : String)
      → String
  calculate_cuds num_ds fec_ds hor_ds val_ds cod_imp val_imp val_tot nit_ofe num_adq software_pin
        tipo_ambiente =
      sha384 (
        num_ds ++ fec_ds ++ hor_ds ++ val_ds ++ cod_imp ++ val_imp ++ val_tot ++ nit_ofe ++ num_adq
        ++ software_pin ++ tipo_ambiente)
