-- ===== src/UsbHost/Rp2040/Pac.antt =====
-- The crates rp2040_pac and rtic_common, as cotton-usb-host/src/host/rp2040.rs uses them: the
-- registers of the chip, and the wakers. They and the chip behind them are a parameter, over states
-- of any type `H`; `W` is the type of the tasks that are woken.
use cotton.Prelude.{ℕ, Bool, List}

pub data Register : Type 0 where
  reset usb_muxing usb_pwr main_ctrl sie_ctrl sie_status : Register
  inte ints intr buff_status addr_endp nak_poll int_ep_ctrl ep_status_stall_nak : Register
  epx_control setup_packet_low setup_packet_high nvic : Register
  host_addr_endp ep_control : ℕ → Register

pub data Field : Type 0 where
  usbctrl to_phy softcon vbus_detect vbus_detect_override_en : Field
  sim_timing host_ndevice controller_en pulldown_en vbus_en keep_alive_en sof_en : Field
  host_conn_dis speed buff_status_field : Field
  bm_request_type b_request w_value w_length w_index : Field
  address endpoint intep_dir delay_fs delay_ls : Field
  buffer_address interrupt_per_buff enable double_buffered endpoint_type host_poll_interval : Field
  receive_data send_data send_setup start_trans reset_bus : Field
  trans_complete data_seq_error stall_rec rx_overflow rx_timeout bit_stuff_error crc_error : Field
  error_data_seq stall error_rx_timeout error_rx_overflow error_bit_stuff error_crc : Field

pub data EndpointType : Type 0 where
  control isochronous bulk interrupt : EndpointType

-- One call on the writer `w`, by the source's name; `kind` is `endpoint_type().bulk()` and its like,
-- `all` is `w.bits(n)`.
pub data Setting : Type 0 where
  set_bit clear_bit : Field → Setting
  bit : Field → Bool → Setting
  bits : Field → ℕ → Setting
  kind : EndpointType → Setting
  all : ℕ → Setting

-- A `CriticalSectionWakerRegistration` of `UsbShared`.
pub data Waker : Type 0 where
  device_waker : Waker
  pipe_waker : ℕ → Waker

pub record Pac (H W : Type 0) : Type 0 where
  pub read : Register → H → ℕ
  pub write : Register → List Setting → H → H
  pub modify : Register → List Setting → H → H
  pub flag : Field → ℕ → Bool
  pub field : Field → ℕ → ℕ
  pub unpend_and_unmask : H → H
  pub register : Waker → W → H → H
