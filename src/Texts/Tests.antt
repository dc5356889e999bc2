-- ===== src/Texts/Tests.antt =====
-- Some texts.
use socanmatic.Base.{◌≡◌, refl}
use socanmatic.Can.{err_dev, err_motion}
use socanmatic.Texts.{strerror, sdo_strerror, sdo_abort_code2str}

-- Two errors have the same text.
motion_error_text : strerror err_motion ≡ strerror err_dev
unfolding strerror
motion_error_text = refl

timeout_text : sdo_strerror 0x05040000 ≡ sdo_abort_code2str 0x05040000
unfolding sdo_strerror sdo_abort_code2str
timeout_text = refl
